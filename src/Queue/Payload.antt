-- ===== src/Queue/Payload.antt =====
-- pkg/queue/payload.go and the payload options of options.go. An `any` is a value of
-- PhpSerialize.Value; a pointer is an Option, and so is a slice that may be nil.
pub mod Backoff
use laravel_queue_go.Prelude.{
  ℕ, zero, suc, ◌-◌, ◌/◌, ◌%◌, ◌+◌, Bool, true, false, Option, none, some, List, [], ◌∷◌, length,
  get_elem?, ltb, leb, if◌then◌else◌,
}
use laravel_queue_go.Prelude.Bytes.{Bytes, codes}
use laravel_queue_go.Prelude.Int.{ℤ, pos, negsuc, max_int64}
use laravel_queue_go.Strconv.{parse_int_clamped}
use laravel_queue_go.PhpSerialize.Floats.{float_to_int}
use laravel_queue_go.PhpSerialize.Value.{
  Value, IntKind, null, int, float64, json_number, slice, ints, items,
}

abbrev pub laravel_call_queued_handler : Bytes
laravel_call_queued_handler = codes "Illuminate\\Queue\\CallQueuedHandler@call"

abbrev pub default_queue_name : Bytes
default_queue_name = codes "default"

abbrev pub default_connection : Bytes
default_connection = codes "redis"

pub record PayloadData : Type 0 where
  pub command_name : Bytes
  pub command : Bytes

-- `pushed_at` is the bit pattern of the float64.
pub record LaravelPayload : Type 0 where
  pub uuid : Bytes
  pub display_name : Bytes
  pub job : Bytes
  pub max_tries : Option ℤ
  pub max_exceptions : Option ℤ
  pub fail_on_timeout : Bool
  pub backoff : Value
  pub timeout : Option ℤ
  pub retry_until : Option ℤ
  pub tags : Option (List Bytes)
  pub payload_data : PayloadData
  pub id : Bytes
  pub attempts : ℤ
  pub pushed_at : ℕ

abbrev pub PayloadOption : Type 0
PayloadOption = LaravelPayload → LaravelPayload

unfoldable pub with_max_tries : ℤ → PayloadOption
with_max_tries n p = record p { max_tries = some n }

unfoldable pub with_max_exceptions : ℤ → PayloadOption
with_max_exceptions n p = record p { max_exceptions = some n }

unfoldable pub with_fail_on_timeout : Bool → PayloadOption
with_fail_on_timeout v p = record p { fail_on_timeout = v }

unfoldable pub with_backoff : Value → PayloadOption
with_backoff v p = record p { backoff = v }

unfoldable pub with_timeout : ℤ → PayloadOption
with_timeout n p = record p { timeout = some n }

unfoldable pub with_retry_until : ℤ → PayloadOption
with_retry_until t p = record p { retry_until = some t }

unfoldable pub with_tags : List Bytes → PayloadOption
with_tags tags p = record p { tags = some tags }

unfoldable pub apply_options : List PayloadOption → LaravelPayload → LaravelPayload
apply_options [] p = p
apply_options (opt ∷ opts) p = apply_options opts (opt p)

hex_digit : ℕ → ℕ
hex_digit d = if ltb d 10 then b'0' + d else b'a' + (d - 10)

-- hex.EncodeToString.
unfoldable pub hex : Bytes → Bytes
unfolding hex_digit
hex [] = []
hex (c ∷ s) = hex_digit (c / 16) ∷ hex_digit (c % 16) ∷ hex s

-- What NewPayload takes from its surroundings: a new UUID, sixteen random bytes and the time.
pub record Fresh : Type 0 where
  pub uuid : Bytes
  pub random : Bytes
  pub pushed_at : ℕ

unfoldable pub generate_id : Fresh → Bytes
unfolding hex
generate_id fresh = hex fresh.random

unfoldable pub new_payload : Fresh → Bytes → Bytes → List PayloadOption → LaravelPayload
unfolding apply_options generate_id
new_payload fresh job_name command opts = apply_options opts (record {
  uuid = fresh.uuid;
  display_name = job_name;
  job = laravel_call_queued_handler;
  max_tries = none;
  max_exceptions = none;
  fail_on_timeout = false;
  backoff = null;
  timeout = none;
  retry_until = none;
  tags = none;
  payload_data = record { command_name = job_name; command = command };
  id = generate_id fresh;
  attempts = pos 0;
  pushed_at = fresh.pushed_at;
})

-- `idx := attempt - 1`, which wraps at the least int, brought into the n entries of the list.
unfoldable pub backoff_index : ℤ → ℕ → ℕ
backoff_index (pos zero) n = 0
backoff_index (pos (suc i)) n = if leb n i then n - 1 else i
backoff_index (negsuc m) n = if leb max_int64 m then n - 1 else 0

-- The number cases of the two type switches.
unfoldable pub seconds_of : Value → ℤ
seconds_of (float64 b) = float_to_int b
seconds_of (json_number s) = parse_int_clamped s
seconds_of (int IntKind.int n) = n
seconds_of _ = pos 0

unfoldable pub seconds_at : Option Value → ℤ
unfolding seconds_of
seconds_at none = pos 0
seconds_at (some v) = seconds_of v

unfoldable pub int_at : Option ℤ → ℤ
int_at none = pos 0
int_at (some n) = n

unfoldable pub backoff_of : Value → ℤ → ℤ
unfolding backoff_index seconds_of seconds_at int_at
backoff_of (slice vs) attempt =
    seconds_at (get_elem? (items vs) (backoff_index attempt (length (items vs))))
backoff_of (ints zs) attempt = int_at (get_elem? zs (backoff_index attempt (length zs)))
backoff_of v attempt = seconds_of v

unfoldable pub backoff_seconds : LaravelPayload → ℤ → ℤ
unfolding backoff_of
backoff_seconds p attempt = backoff_of p.backoff attempt
