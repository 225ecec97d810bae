-- ===== src/Queue/Dispatcher.antt =====
-- pkg/queue/dispatcher.go. A supply of what NewPayload takes from its surroundings stands for the
-- random source and the clock: the job takes the first, the jobs of its chain the next ones.
pub mod Command
pub mod JsonCommand
use laravel_queue_go.Prelude.{
  ℕ, zero, suc, ◌+◌, Bool, true, false, Option, none, some, List, [], ◌∷◌, ◌++◌, map, if◌then◌else◌,
}
use laravel_queue_go.Prelude.Bytes.{Bytes, codes}
use laravel_queue_go.Prelude.Dict.{Dict, put}
use laravel_queue_go.Prelude.Int.{ℤ, pos, ltb_ℤ}
use laravel_queue_go.Prelude.Result.{Result, ok, err, panic, out_of_fuel, bind}
use laravel_queue_go.PhpSerialize.Floats.{FloatText}
use laravel_queue_go.PhpSerialize.Value.{
  Value, null, string, slice, object, fields, of_fields, of_items,
}
use laravel_queue_go.PhpSerialize.Encoder.{encode, marshal_object}
use laravel_queue_go.PhpSerialize.Decoder.{decode}
use laravel_queue_go.Queue.Driver.{DriverError, Outcome, done, failed, Driver}
use laravel_queue_go.Queue.Job.{CommandFormat, format_php, format_json}
use laravel_queue_go.Queue.Json.{Json}
use laravel_queue_go.Queue.Payload.{
  LaravelPayload, PayloadOption, Fresh, new_payload, default_queue_name, with_max_tries,
  with_max_exceptions, with_fail_on_timeout, with_backoff, with_timeout, with_retry_until,
  with_tags,
}

pub record ChainedJob : Type 0 where
  pub job : Bytes
  pub args : Dict Value

-- `unique_for` is read by no code.
pub record DispatchOptions : Type 0 where
  pub job : Bytes
  pub queue : Bytes
  pub delay : ℤ
  pub max_tries : Option ℤ
  pub max_exceptions : Option ℤ
  pub fail_on_timeout : Bool
  pub backoff : Value
  pub timeout : Option ℤ
  pub retry_until : Option ℤ
  pub tags : List Bytes
  pub unique_for : ℤ
  pub args : Dict Value
  pub chain : List ChainedJob

pub record Dispatcher (S : Type 0) : Type 0 where
  pub driver : Driver S
  pub queue : Bytes
  pub format : CommandFormat

pub data DispatchError : Type 0 where
  serialize_error marshal_error chain_error : DispatchError
  driver_error : DriverError → DispatchError

abbrev pub DispatcherOption : Type 0 → Type 0
DispatcherOption S = Dispatcher S → Dispatcher S

unfoldable pub with_default_queue : {S : Type 0} → Bytes → DispatcherOption S
with_default_queue queue d = record d { queue = queue }

unfoldable pub with_command_format : {S : Type 0} → CommandFormat → DispatcherOption S
with_command_format f d = record d { format = f }

apply_all : {S : Type 0} → List (DispatcherOption S) → Dispatcher S → Dispatcher S
apply_all [] d = d
apply_all (opt ∷ opts) d = apply_all opts (opt d)

unfoldable pub new_dispatcher : {S : Type 0} → Driver S → List (DispatcherOption S) → Dispatcher S
unfolding apply_all
new_dispatcher driver opts =
    apply_all opts (record { driver = driver; queue = default_queue_name; format = format_php })

-- An error of another package, wrapped.
wrap : {E A : Type 0} → DispatchError → Result E A → Result DispatchError A
wrap e (ok a) = ok a
wrap e (err x) = err e
wrap e panic = panic
wrap e out_of_fuel = out_of_fuel

unfoldable pub present : {A : Type 0} → DispatchError → Option A → Result DispatchError A
present e none = err e
present e (some a) = ok a

unfoldable pub put_all : Dict Value → Dict Value → Dict Value
put_all [] m = m
put_all ((k, v) ∷ args) m = put_all args (put k v m)

module _ (fl : FloatText) (json : Json) where
  unfoldable pub marshal_command_json : Bytes → Dict Value → Result DispatchError Bytes
  unfolding present put_all
  marshal_command_json job_name args =
      present serialize_error
        (json.marshal_map (put_all args ((codes "commandName", string job_name) ∷ [])))

  unfoldable pub marshal_command : CommandFormat → Bytes → Dict Value → Result DispatchError Bytes
  unfolding wrap marshal_command_json
  marshal_command format_json job_name args = marshal_command_json job_name args
  marshal_command format_php job_name args = wrap serialize_error (marshal_object fl job_name args)

  unfoldable pub build_chain_payloads :
      CommandFormat → (ℕ → Fresh) → ℕ → List ChainedJob → Result DispatchError (List Bytes)
  unfolding present
  build_chain_payloads format fresh i [] = ok []
  build_chain_payloads format fresh i (c ∷ chain) =
      bind (marshal_command format c.job c.args) λ command.
        bind (present chain_error (json.marshal_payload (new_payload (fresh i) c.job command [])))
          λ data_text.
            bind (build_chain_payloads format fresh (i + 1) chain) λ rest. ok (data_text ∷ rest)

  abbrev chain_value : List Bytes → Value
  chain_value chain = slice (of_items (map string chain))

  -- A decoded command that is no object is an error.
  inject_object : List Bytes → Value → Result DispatchError Bytes
  unfolding wrap
  inject_object chain (object class fs) =
      wrap chain_error (
        encode fl
          (object class (of_fields (put (codes "chained") (chain_value chain) (fields fs)))))
  inject_object chain v = err chain_error

  unfoldable pub inject_chain : CommandFormat → Bytes → List Bytes → Result DispatchError Bytes
  unfolding present wrap inject_object
  inject_chain format_json command chain =
      bind (present chain_error (json.unmarshal_map command)) λ obj.
        present chain_error (json.marshal_map (put (codes "chained") (chain_value chain) obj))
  inject_chain format_php command chain =
      bind (wrap chain_error (decode fl command)) (inject_object chain)

  -- Without a chain the command stays as it is.
  with_chain : CommandFormat → (ℕ → Fresh) → List ChainedJob → Bytes → Result DispatchError Bytes
  with_chain format fresh [] command = ok command
  with_chain format fresh (c ∷ chain) command =
      bind (build_chain_payloads format fresh 1 (c ∷ chain)) (inject_chain format command)

abbrev optional : {A : Type 0} → (A → PayloadOption) → Option A → List PayloadOption
optional opt none = []
optional opt (some a) = opt a ∷ []

backoff_option : Value → List PayloadOption
backoff_option null = []
backoff_option v = with_backoff v ∷ []

tags_option : List Bytes → List PayloadOption
tags_option [] = []
tags_option (t ∷ tags) = with_tags (t ∷ tags) ∷ []

unfoldable pub payload_options : DispatchOptions → List PayloadOption
unfolding backoff_option tags_option
payload_options o =
    optional with_max_tries o.max_tries
    ++ (optional with_max_exceptions o.max_exceptions
        ++ ((if o.fail_on_timeout then with_fail_on_timeout true ∷ [] else [])
            ++ (backoff_option o.backoff
                ++ (optional with_timeout o.timeout
                    ++ (optional with_retry_until o.retry_until ++ tags_option o.tags)))))

queue_or : Bytes → Bytes → Bytes
queue_or [] default_queue = default_queue
queue_or (c ∷ q) default_queue = c ∷ q

module _ {S : Type 0} (fl : FloatText) (json : Json) (d : Dispatcher S) where
  sent : Outcome (Unit {0}) × S → Result DispatchError (Unit {0}) × S
  sent (done a, s) = (ok tt, s)
  sent (failed e, s) = (err (driver_error e), s)

  -- Later with a delay above zero, else Push.
  send : Bytes → ℤ → Result DispatchError Bytes → S → Result DispatchError (Unit {0}) × S
  unfolding sent
  send queue delay (ok text) s = sent (
      if ltb_ℤ (pos 0) delay then d.driver.later queue delay text s else d.driver.push queue text s)
  send queue delay (err e) s = (err e, s)
  send queue delay panic s = (panic, s)
  send queue delay out_of_fuel s = (out_of_fuel, s)

  text_of : LaravelPayload → Result DispatchError Bytes
  unfolding present
  text_of p = present marshal_error (json.marshal_payload p)

  -- dispatch, which Dispatch calls with no delay and Later with one.
  unfoldable pub dispatch :
      (ℕ → Fresh)
      → Bytes
      → Dict Value
      → ℤ
      → List PayloadOption
      → S
      → Result DispatchError (Unit {0}) × S
  unfolding send text_of
  dispatch fresh job_name args delay opts = send d.queue delay (
      bind (marshal_command fl json d.format job_name args)
        λ command. text_of (new_payload (fresh 0) job_name command opts))

  unfoldable pub dispatch_with_options :
      (ℕ → Fresh) → DispatchOptions → S → Result DispatchError (Unit {0}) × S
  unfolding send text_of with_chain queue_or
  dispatch_with_options fresh o = send (queue_or o.queue d.queue) o.delay (
      bind (marshal_command fl json d.format o.job o.args) λ command.
        let p = new_payload (fresh 0) o.job command (payload_options o) in
        bind (with_chain fl json d.format fresh o.chain command) λ chained.
          text_of (record p { payload_data = record p.payload_data { command = chained } }))
