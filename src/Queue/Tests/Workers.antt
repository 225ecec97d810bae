-- ===== src/Queue/Tests/Workers.antt =====
-- The theorems on jobs and the worker at concrete inputs.
use laravel_queue_go.Prelude.{◌≡◌, ◌≤◌, ◌↔◌, refl, arith, [], ◌∷◌, none, true, false}
use laravel_queue_go.Prelude.Bytes.{codes}
use laravel_queue_go.Prelude.Int.{ℤ, pos, wrap_int64, ◌+ℤ◌}
use laravel_queue_go.PhpSerialize.Sample.{sample_floats}
use laravel_queue_go.PhpSerialize.Value.{IntKind, int, slice, cons, nil, items}
use laravel_queue_go.Queue.Payload.{LaravelPayload, backoff_seconds, seconds_at}
use laravel_queue_go.Queue.Payload.Backoff.{nth_or_last, backoff_seconds-slice}
use laravel_queue_go.Queue.Job.{Job, format_php, has_failed, next_attempt}
use laravel_queue_go.Queue.Job.Tries.{released_times, has_failed-tries}
use laravel_queue_go.Queue.RedisDriver.{State, redis_driver}
use laravel_queue_go.Queue.Tests.{sample_state-Holds}
use laravel_queue_go.Queue.Redis.Memory.{memory}
use laravel_queue_go.Queue.Sample.{sample_json, sample_payload}
use laravel_queue_go.Queue.Sample.Driver.{
  lossy_oracle, sample_config, sample_driver, sample_job, sample_state, sample_queue,
}
use laravel_queue_go.Queue.Worker.{HandlerError, Worker, World, Running, Timing, handle_failure}
use laravel_queue_go.Queue.Worker.Failure.{IsAccounted, handle_failure-IsAccounted}
use laravel_queue_go.Queue.Worker.Loop.{Turn, run_single}
use laravel_queue_go.Queue.Worker.Loop.Limits.{Returned, run_single-max_jobs}

abbrev backed_off : LaravelPayload
backed_off = record (sample_payload (pos 2)) {
  backoff = slice (cons (int IntKind.int (pos 10)) (cons (int IntKind.int (pos 60)) nil));
}

backoff_seconds-slice_example :
    backoff_seconds backed_off (pos 2)
    ≡ seconds_at (
        nth_or_last
          (items (cons (int IntKind.int (pos 10)) (cons (int IntKind.int (pos 60)) nil)))
          1)
backoff_seconds-slice_example = backoff_seconds-slice backed_off 2 _ refl

abbrev parsed_job : ℤ → Job
parsed_job n = record {
  raw = sample_job;
  payload = sample_payload n;
  job_data = none;
  format = format_php;
}

released_twice : sample_payload (pos 2) ≡ released_times 2 (sample_payload (pos 0))
unfolding released_times next_attempt wrap_int64 ◌+ℤ◌
released_twice = refl

has_failed-tries_example : (has_failed (parsed_job (pos 2)) (pos 9) ≡ true) ↔ (3 ≤ 2)
has_failed-tries_example =
    has_failed-tries (parsed_job (pos 2)) (sample_payload (pos 0)) 3 2 (pos 9) refl refl refl
      (omega arith) released_twice

abbrev sample_worker : Worker (State memory)
sample_worker = record {
  driver = sample_driver;
  options = record {
    queue = sample_queue;
    concurrency = pos 1;
    max_jobs = pos 2;
    max_time = pos 0;
    sleep = pos 3000000000;
    stop_on_empty = false;
  };
  handlers = [];
  default_handler = none;
  pipeline = [];
  connection = codes "redis";
}

abbrev sample_world : State memory → World (State memory)
sample_world s = record { driver_state = s; fired = []; log_calls = [] }

abbrev sample_timing : Timing
sample_timing = record { duration = pos 1; now = pos 43200 }

abbrev sample_turn : Turn
sample_turn = record { stopped = false; elapsed = pos 0; woken = false; timing = sample_timing }

run_single-max_jobs_example :
    Returned
      (λ l. l.jobs_processed ≤ 2)
      (run_single sample_floats sample_json sample_worker
        (sample_turn ∷ sample_turn ∷ [])
        0
        (sample_world sample_state))
run_single-max_jobs_example =
    run_single-max_jobs sample_floats sample_json sample_worker 1 refl
      (sample_turn ∷ sample_turn ∷ []) 0 (sample_world sample_state) (omega arith)

abbrev sample_error : HandlerError
sample_error = record { release_delay = none; text = codes "no route" }

-- The job is in the last of its tries, on a queue that holds its body.
abbrev sample_running : Running (State memory)
sample_running = record { job = parsed_job (pos 3); world = sample_world sample_state }

-- The worker's calls all lose their replies.
abbrev lossy_worker : Worker (State memory)
lossy_worker = record sample_worker { driver = redis_driver memory lossy_oracle sample_config }

handle_failure-IsAccounted_example :
    IsAccounted sample_floats sample_json memory lossy_oracle sample_config lossy_worker
      sample_error sample_timing sample_running
      (handle_failure sample_floats sample_json lossy_worker sample_error sample_timing
        sample_running)
handle_failure-IsAccounted_example =
    handle_failure-IsAccounted sample_floats sample_json memory lossy_oracle sample_config
      lossy_worker sample_error sample_timing sample_running (λ n d h. h) refl sample_state-Holds
