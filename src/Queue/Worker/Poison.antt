-- ===== src/Queue/Worker/Poison.antt =====
-- A payload whose command makes Decode panic, in the hands of a worker: process of
-- pkg/queue/worker.go and ParseJob of pkg/queue/job.go.
use laravel_queue_go.Prelude.{ℕ, ◌≡◌, ◌≤◌, ◌∙◌, refl, ap, Option, some, ◌++◌}
use laravel_queue_go.Prelude.Bytes.{Bytes, codes}
use laravel_queue_go.Prelude.Int.{negsuc, max_int64}
use laravel_queue_go.Prelude.Result.{panic}
use laravel_queue_go.Strconv.{format_int}
use laravel_queue_go.PhpSerialize.Floats.{FloatText}
use laravel_queue_go.PhpSerialize.Panics.{decode-negative_length}
use laravel_queue_go.Queue.Driver.{RawJob}
use laravel_queue_go.Queue.Json.{Json}
use laravel_queue_go.Queue.Payload.{LaravelPayload}
use laravel_queue_go.Queue.Job.{decode_command, php_or_json, parse_job, parse_body}
use laravel_queue_go.Queue.Worker.{Worker, World, Timing, process, process_job}

module _ (fl : FloatText) (json : Json) where
  -- A serialized array with a count below zero.
  abbrev pub poison : ℕ → Bytes → Bytes
  poison n rest = codes "a:" ++ (format_int (negsuc n) ++ (codes ":{" ++ rest))

  decode_command-poison :
      (n : ℕ) (rest : Bytes) → n ≤ max_int64 → decode_command fl json (poison n rest) ≡ panic
  unfolding decode_command php_or_json
  decode_command-poison n rest small = rw ((decode-negative_length fl n rest small).1) refl

  parse_body-poison :
      (raw : RawJob) (o : Option LaravelPayload) (p : LaravelPayload) (n : ℕ) (rest : Bytes)
      → n ≤ max_int64
      → o ≡ some p
      → p.payload_data.command ≡ poison n rest
      → parse_body fl json raw o ≡ panic
  unfolding parse_body
  parse_body-poison raw o p n rest small e command =
      let fails : decode_command fl json p.payload_data.command ≡ panic =
        ap (decode_command fl json) command ∙ decode_command-poison n rest small in
      rw (e, parse_body, fails) refl

  -- A payload whose command is a serialized array with a negative int64 for its count makes the
  -- worker's process panic, whatever the worker, the time and the state of the world are.
  pub process-poison :
      {S : Type 0} (w : Worker S) (t : Timing) (raw : RawJob) (world : World S) (p : LaravelPayload)
      (n : ℕ) (rest : Bytes)
      → n ≤ max_int64
      → json.unmarshal_payload raw.body ≡ some p
      → p.payload_data.command ≡ poison n rest
      → process fl json w t raw world ≡ panic
  unfolding process process_job parse_job
  process-poison w t raw world p n rest small e command =
      ap (process_job fl json w t raw world)
        (parse_body-poison raw (json.unmarshal_payload raw.body) p n rest small e command)
