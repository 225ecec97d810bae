-- ===== src/Queue/Json.antt =====
-- What jobs and dispatchers rely on of encoding/json.
use laravel_queue_go.Prelude.{◌≡◌, Option, some}
use laravel_queue_go.Prelude.Bytes.{Bytes}
use laravel_queue_go.Prelude.Dict.{Dict}
use laravel_queue_go.Prelude.Int.{ℤ, InInt64}
use laravel_queue_go.PhpSerialize.Value.{Value}
use laravel_queue_go.Queue.Payload.{LaravelPayload}

-- Marshal and Unmarshal of a payload and of a map[string]any; none is an error. A payload that was
-- decoded is encoded without an error, whatever its attempt count, and decoded again to itself.
pub record Json : Type 0 where
  pub marshal_payload : LaravelPayload → Option Bytes
  pub unmarshal_payload : Bytes → Option LaravelPayload
  pub marshal_map : Dict Value → Option Bytes
  pub unmarshal_map : Bytes → Option (Dict Value)
  pub marshal-decoded :
      (b : Bytes) (p : LaravelPayload) (n : ℤ)
      → unmarshal_payload b ≡ some p
      → InInt64 n
      → (c : Bytes) × (marshal_payload (record p { attempts = n }) ≡ some c)
        × (unmarshal_payload c ≡ some (record p { attempts = n }))
