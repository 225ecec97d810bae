-- ===== src/Queue/Job/Parse.antt =====
-- ParseJob and the recognition of the two command formats.
use laravel_queue_go.Prelude.{◌≢◌, refl, Option, none, some, [], ◌∷◌, ◌==◌, Bool-cases, inl, inr}
use laravel_queue_go.Prelude.Bytes.{Bytes}
use laravel_queue_go.Prelude.Result.{Result, ok, err, panic, out_of_fuel}
use laravel_queue_go.PhpSerialize.Floats.{FloatText}
use laravel_queue_go.PhpSerialize.Value.{Value, object}
use laravel_queue_go.PhpSerialize.Decoder.{DecodeError}
use laravel_queue_go.PhpSerialize.Fuel.{decode-ne-out_of_fuel}
use laravel_queue_go.PhpSerialize.Helpers.{Object}
use laravel_queue_go.Queue.Driver.{RawJob}
use laravel_queue_go.Queue.Json.{Json}
use laravel_queue_go.Queue.Payload.{LaravelPayload}
use laravel_queue_go.Queue.Job.{
  Job, CommandFormat, JobError, parse_job, parse_body, decode_command, php_or_json,
}

module _ (fl : FloatText) (json : Json) where
  php_or_json-fuel :
      (c : Bytes) (r : Result DecodeError Value)
      → r ≢ out_of_fuel
      → php_or_json json c r ≢ out_of_fuel
  unfolding php_or_json
  php_or_json-fuel c (ok (object class fs)) h = cc
  php_or_json-fuel c (ok _) h = cc
  php_or_json-fuel c (err e) h = cc
  php_or_json-fuel c panic h = cc
  php_or_json-fuel c out_of_fuel h = λ _. h refl

  decode_command-fuel : (c : Bytes) → decode_command fl json c ≢ out_of_fuel
  unfolding decode_command
  decode_command-fuel [] = cc
  decode_command-fuel (c ∷ s) = elim (Bool-cases (c == b'{')) [
    | inl json_first ↦ rw json_first (cc)
    | inr other ↦ rw other (php_or_json-fuel (c ∷ s) _ (decode-ne-out_of_fuel fl (c ∷ s)))
  ]

  parse_body-fuel :
      (raw : RawJob) (p : Option LaravelPayload) → parse_body fl json raw p ≢ out_of_fuel
  unfolding parse_body
  parse_body-fuel raw none = cc
  parse_body-fuel raw (some p) = go _ (decode_command-fuel p.payload_data.command)
    where
      go :
          (r : Result ⊥ (Option Object × CommandFormat))
          → r ≢ out_of_fuel
          → (elim r as (λ _. Result JobError Job) [
            | ok (job_data, format) ↦
                ok (record { raw = raw; payload = p; job_data = job_data; format = format })
            | err e ↦ absurd e
            | panic ↦ panic
            | out_of_fuel ↦ out_of_fuel
          ])
            ≢ out_of_fuel
      go (ok (d, f)) h = cc
      go (err e) h = absurd e
      go panic h = cc
      go out_of_fuel h = λ _. h refl

  -- ParseJob comes to a job, an error or a panic on every raw job: the fuel of its call of Decode
  -- never runs out.
  pub parse_job-ne-out_of_fuel : (raw : RawJob) → parse_job fl json raw ≢ out_of_fuel
  unfolding parse_job
  parse_job-ne-out_of_fuel raw = parse_body-fuel raw (json.unmarshal_payload raw.body)
