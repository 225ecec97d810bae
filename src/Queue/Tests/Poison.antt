-- ===== src/Queue/Tests/Poison.antt =====
-- A worker that pops a job whose command is an array of -5 entries.
use laravel_queue_go.Prelude.{◌≡◌, refl, arith, some, []}
use laravel_queue_go.Prelude.Bytes.{Bytes}
use laravel_queue_go.Prelude.Int.{pos}
use laravel_queue_go.Prelude.Result.{panic}
use laravel_queue_go.Strconv.{parse_int}
use laravel_queue_go.PhpSerialize.Sample.{sample_floats}
use laravel_queue_go.Queue.Sample.{payload_with, json_with, sample_json}
use laravel_queue_go.Queue.Sample.Driver.{sample_job}
use laravel_queue_go.Queue.Worker.{process}
use laravel_queue_go.Queue.Worker.Poison.{poison, process-poison}
use laravel_queue_go.Queue.Tests.Concurrent.{two_slots, first_world, first_turn}

abbrev bad_command : Bytes
bad_command = poison sample_floats sample_json 4 []

bad_body :
    (json_with bad_command).unmarshal_payload sample_job.body
    ≡ some (payload_with bad_command (pos 1))
unfolding parse_int
bad_body = refl

process-poison_example :
    process sample_floats (json_with bad_command) two_slots first_turn.timing sample_job first_world
    ≡ panic
process-poison_example =
    process-poison sample_floats (json_with bad_command) two_slots first_turn.timing sample_job
      first_world (payload_with bad_command (pos 1)) 4 [] (omega arith) bad_body refl
