-- ===== src/Queue/Job.antt =====
-- pkg/queue/job.go. A method that changes the job returns the new job.
pub mod Parse
pub mod Tries
pub mod Release
use laravel_queue_go.Prelude.{
  ℕ, suc, ◌+◌, Bool, true, false, ◌||◌, Option, none, some, List, [], ◌∷◌, ◌==◌, if◌then◌else◌,
}
use laravel_queue_go.Prelude.Bytes.{Bytes, codes}
use laravel_queue_go.Prelude.Dict.{Dict, lookup}
use laravel_queue_go.Prelude.Int.{ℤ, pos, negsuc, ◌+ℤ◌, leb_ℤ, wrap_int64, scale}
use laravel_queue_go.Prelude.Result.{Result, ok, err, panic, out_of_fuel, bind}
use laravel_queue_go.Strconv.{parse_int_clamped}
use laravel_queue_go.PhpSerialize.Floats.{FloatText, float_to_int}
use laravel_queue_go.PhpSerialize.Value.{
  Value, IntKind, int, float64, string, slice, dict, object, array, json_number, items, fields,
}
use laravel_queue_go.PhpSerialize.Decoder.{DecodeError, decode}
use laravel_queue_go.PhpSerialize.Helpers
use laravel_queue_go.PhpSerialize.Helpers.{Object, property}
use laravel_queue_go.PhpSerialize.ModelIdentifier.{
  ModelIdentifier, as_model_identifier, or_null, only_strings, collection_class_of,
}
use laravel_queue_go.Queue.Driver.{DriverError, Outcome, RawJob, Driver}
use laravel_queue_go.Queue.Json.{Json}
use laravel_queue_go.Queue.Payload.{LaravelPayload, backoff_seconds}

pub data CommandFormat : Type 0 where
  format_php format_json : CommandFormat

-- `job_data` is the field data. The context is left out: no method reads it but to pass it on.
pub record Job : Type 0 where
  pub raw : RawJob
  pub payload : LaravelPayload
  pub job_data : Option Object
  pub format : CommandFormat

unfoldable pub string_from_any : Option Value → Bytes
string_from_any (some (string s)) = s
string_from_any _ = []

-- An empty object is taken for a failure.
unfoldable pub json_object : Option (Dict Value) → Option Object × CommandFormat
json_object none = (none, format_php)
json_object (some []) = (none, format_php)
json_object (some (e ∷ props)) = (
  some (record {
    class_name = string_from_any (lookup (codes "commandName") (e ∷ props));
    properties = e ∷ props;
  }),
  format_json,
)

unfoldable pub decode_command_json : Json → Bytes → Option Object × CommandFormat
unfolding json_object string_from_any
decode_command_json json command = json_object (json.unmarshal_map command)

-- A value that is no object falls back to JSON, as an error does; a panic goes through.
unfoldable pub php_or_json :
    Json → Bytes → Result DecodeError Value → Result ⊥ (Option Object × CommandFormat)
php_or_json json command (ok (object class fs)) =
    ok (some (record { class_name = class; properties = fields fs }), format_php)
php_or_json json command (ok v) = ok (decode_command_json json command)
php_or_json json command (err e) = ok (decode_command_json json command)
php_or_json json command panic = panic
php_or_json json command out_of_fuel = out_of_fuel

unfoldable pub decode_command : FloatText → Json → Bytes → Result ⊥ (Option Object × CommandFormat)
unfolding php_or_json decode_command_json
decode_command fl json [] = ok (none, format_php)
decode_command fl json (c ∷ command) =
    if c == b'{'
    then ok (decode_command_json json (c ∷ command))
    else php_or_json json (c ∷ command) (decode fl (c ∷ command))

pub data JobError : Type 0 where
  bad_payload : JobError
  driver_error : DriverError → JobError

-- ParseJob.
unfoldable pub parse_body : FloatText → Json → RawJob → Option LaravelPayload → Result JobError Job
parse_body fl json raw none = err bad_payload
parse_body fl json raw (some payload) = elim (decode_command fl json payload.payload_data.command) [
  | ok (job_data, format) ↦
      ok (record { raw = raw; payload = payload; job_data = job_data; format = format })
  | err e ↦ absurd e
  | panic ↦ panic
  | out_of_fuel ↦ out_of_fuel
]

unfoldable pub parse_job : FloatText → Json → RawJob → Result JobError Job
unfolding parse_body decode_command
parse_job fl json raw = parse_body fl json raw (json.unmarshal_payload raw.body)

-- The accessors. Where the data is nil each gives the zero value.
unfoldable pub get_string : Job → Bytes → Bytes
unfolding Helpers.get_string
get_string job key = Helpers.get_string job.job_data key

json_int : Option Value → ℤ
json_int (some (float64 b)) = float_to_int b
json_int (some (int IntKind.int64 n)) = n
json_int (some (json_number s)) = parse_int_clamped s
json_int _ = pos 0

by_format {ℓ} : {A : Type ℓ} → CommandFormat → A → A → A
by_format format_php php json = php
by_format format_json php json = json

unfoldable pub get_int : Job → Bytes → ℤ
unfolding json_int by_format property Helpers.get_int
get_int job key =
    by_format job.format (Helpers.get_int job.job_data key) (json_int (property job.job_data key))

unfoldable pub get_float : Job → Bytes → ℕ
unfolding Helpers.get_float
get_float job key = Helpers.get_float job.job_data key

unfoldable pub get_bool : Job → Bytes → Bool
unfolding Helpers.get_bool
get_bool job key = Helpers.get_bool job.job_data key

json_slice : Option Value → Option (List Value)
json_slice (some (slice vs)) = some (items vs)
json_slice _ = none

unfoldable pub get_slice : Job → Bytes → Option (List Value)
unfolding json_slice by_format property Helpers.get_slice
get_slice job key =
    by_format job.format (Helpers.get_slice job.job_data key)
      (json_slice (property job.job_data key))

json_map : Option Value → Result ⊥ (Option (Dict Value))
json_map (some (dict fs)) = ok (some (fields fs))
json_map _ = ok none

unfoldable pub get_map : Job → Bytes → Result ⊥ (Option (Dict Value))
unfolding json_map by_format property Helpers.get_map
get_map job key =
    by_format job.format (Helpers.get_map job.job_data key) (json_map (property job.job_data key))

-- A ModelIdentifier that JSON decoded as a nested object.
json_relations : Option Value → List Bytes
json_relations (some (slice vs)) = only_strings (items vs)
json_relations _ = []

json_model_id : Dict Value → ModelIdentifier
unfolding json_relations
json_model_id m = record {
  class = string_from_any (lookup (codes "class") m);
  id = or_null (lookup (codes "id") m);
  relations = json_relations (lookup (codes "relations") m);
  connection = string_from_any (lookup (codes "connection") m);
  collection_class = collection_class_of (lookup (codes "collectionClass") m);
}

model_id_of : Value → Option ModelIdentifier
unfolding json_model_id as_model_identifier
model_id_of (dict fs) = some (json_model_id (fields fs))
model_id_of v = as_model_identifier v

unfoldable pub get_model_id : Job → Bytes → Option ModelIdentifier
unfolding model_id_of property
get_model_id job key = elim (property job.job_data key) [ none ↦ none | some v ↦ model_id_of v ]

chained_of : Option Value → Option (List Bytes)
chained_of (some (array ks vs)) = some (only_strings (items vs))
chained_of (some (slice vs)) = some (only_strings (items vs))
chained_of _ = none

unfoldable pub chained_jobs : Job → Option (List Bytes)
unfolding chained_of property
chained_jobs job = chained_of (property job.job_data (codes "chained"))

unfoldable pub batch_id : Job → Bytes
unfolding string_from_any property
batch_id job = string_from_any (property job.job_data (codes "batchId"))

reached : Option ℤ → ℤ → Bool
reached none n = false
reached (some bound) n = leb_ℤ bound n

-- HasFailed at a time in Unix seconds.
unfoldable pub has_failed : Job → ℤ → Bool
unfolding reached
has_failed job now =
    reached job.payload.max_tries job.payload.attempts || reached job.payload.retry_until now

-- In nanoseconds; the product wraps.
unfoldable pub backoff_duration : Job → ℤ
backoff_duration job =
    wrap_int64 (scale 1000000000 (backoff_seconds job.payload job.payload.attempts))

-- `j.payload.Attempts++`.
unfoldable pub next_attempt : LaravelPayload → LaravelPayload
next_attempt p = record p { attempts = wrap_int64 (p.attempts +ℤ pos 1) }

-- The errors of Delete and Release.
pub data JobOutcome : Type 0 where
  done : JobOutcome
  failed : JobError → JobOutcome

unfoldable pub lift_error : {S : Type 0} → Outcome (Unit {0}) × S → JobOutcome × S
lift_error (Outcome.done a, s) = (done, s)
lift_error (Outcome.failed e, s) = (failed (driver_error e), s)

module _ {S : Type 0} (driver : Driver S) (json : Json) where
  unfoldable pub delete : Job → S → JobOutcome × S
  unfolding lift_error
  delete job s = lift_error (driver.delete job.raw s)

  -- The body that goes back is the payload as it is now, with one attempt more.
  unfoldable pub released : ℤ → Job → LaravelPayload → Option Bytes → S → Job × JobOutcome × S
  released delay job p none s = (record job { payload = p }, failed bad_payload, s)
  released delay job p (some body) s =
      let raw = record job.raw { body = body } in
      let (r, s') = lift_error (driver.release raw delay s) in
      (record job { payload = p; raw = raw }, r, s')

  unfoldable pub release : ℤ → Job → S → Job × JobOutcome × S
  unfolding released next_attempt lift_error
  release delay job s =
      let p = next_attempt job.payload in released delay job p (json.marshal_payload p) s
