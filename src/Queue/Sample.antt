-- ===== src/Queue/Sample.antt =====
-- Instances of what the package queue takes from elsewhere, for runs: an encoding of payloads that
-- knows one job by its attempts, a clock and a network.
pub mod Driver
use laravel_queue_go.Prelude.{ℕ, ◌≡◌, refl, Option, none, some, [], ◌∷◌, Bool, false}
use laravel_queue_go.Prelude.Bytes.{Bytes, codes}
use laravel_queue_go.Prelude.Dict.{Dict}
use laravel_queue_go.Prelude.Int.{ℤ, pos, InInt64}
use laravel_queue_go.Strconv.{parse_int, format_int}
use laravel_queue_go.Strconv.RoundTrip.{parse_int-format}
use laravel_queue_go.PhpSerialize.Value.{Value, null}
use laravel_queue_go.Queue.Json.{Json}
use laravel_queue_go.Queue.Payload.{LaravelPayload}

-- A job with three tries, by its command and its attempts.
abbrev pub payload_with : Bytes → ℤ → LaravelPayload
payload_with command n = record {
  uuid = codes "u";
  display_name = codes "App\\Jobs\\Send";
  job = codes "Illuminate\\Queue\\CallQueuedHandler@call";
  max_tries = some (pos 3);
  max_exceptions = none;
  fail_on_timeout = false;
  backoff = null;
  timeout = none;
  retry_until = none;
  tags = none;
  payload_data = record { command_name = codes "App\\Jobs\\Send"; command = command };
  id = codes "i";
  attempts = n;
  pushed_at = 0;
}

abbrev pub read_sample : Bytes → Option ℤ → Option LaravelPayload
read_sample command none = none
read_sample command (some n) = some (payload_with command n)

pub sample-decoded :
    (command : Bytes) (o : Option ℤ) (p : LaravelPayload) (n : ℤ)
    → read_sample command o ≡ some p
    → InInt64 n
    → (c : Bytes) × (some (format_int n) ≡ some c)
      × (read_sample command (parse_int c) ≡ some (record p { attempts = n }))
sample-decoded command none p n e h = cc
sample-decoded command (some m) p n e h =
    let same : payload_with command m ≡ p = cc in
    (format_int n, refl, rw (parse_int-format n h) (λ i. some (record (same i) { attempts = n })))

abbrev pub json_with : Bytes → Json
json_with command = record {
  marshal_payload = λ p. some (format_int p.attempts);
  unmarshal_payload = λ b. read_sample command (parse_int b);
  marshal_map = λ m. none;
  unmarshal_map = λ b. none;
  marshal-decoded = λ b p n e h. sample-decoded command (parse_int b) p n e h;
}

abbrev pub sample_payload : ℤ → LaravelPayload
sample_payload = payload_with []

abbrev pub sample_json : Json
sample_json = json_with []
