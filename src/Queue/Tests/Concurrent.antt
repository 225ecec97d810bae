-- ===== src/Queue/Tests/Concurrent.antt =====
-- A worker with two slots and a limit of one job.
use laravel_queue_go.Prelude.{refl, [], none, false}
use laravel_queue_go.Prelude.Bytes.{codes}
use laravel_queue_go.Prelude.Int.{pos}
use laravel_queue_go.PhpSerialize.Sample.{sample_floats}
use laravel_queue_go.Queue.Redis.Memory.{memory}
use laravel_queue_go.Queue.RedisDriver.{State}
use laravel_queue_go.Queue.Sample.{sample_json}
use laravel_queue_go.Queue.Sample.Driver.{sample_driver, sample_queue, sample_state}
use laravel_queue_go.Queue.Worker.{Worker, World}
use laravel_queue_go.Queue.Worker.Loop.{Turn, fetch_job}
use laravel_queue_go.Queue.Worker.Concurrent.{
  Pool, start, next_phase, Reachable, initial, step, read_count, fetch, fetching,
}
use laravel_queue_go.Queue.Worker.Concurrent.Invariant.{IsValid, Reachable-IsValid}

abbrev pub two_slots : Worker (State memory)
two_slots = record {
  driver = sample_driver;
  options = record {
    queue = sample_queue;
    concurrency = pos 2;
    max_jobs = pos 1;
    max_time = pos 0;
    sleep = pos 3000000000;
    stop_on_empty = false;
  };
  handlers = [];
  default_handler = none;
  pipeline = [];
  connection = codes "redis";
}

abbrev pub first_world : World (State memory)
first_world = record { driver_state = sample_state; fired = []; log_calls = [] }

abbrev pub first_turn : Turn
first_turn = record {
  stopped = false;
  elapsed = pos 0;
  woken = false;
  timing = record { duration = pos 1; now = pos 43200 };
}

abbrev counted_none : Pool (State memory)
counted_none = record (start first_world) { phase = fetching 0 }

-- The state after the first fetch.
abbrev fetched_one : Pool (State memory)
fetched_one = record counted_none {
  phase = next_phase (fetch_job two_slots first_turn 0 first_world).0;
  world = (fetch_job two_slots first_turn 0 first_world).1;
}

fetched_one-Reachable : Reachable two_slots first_world fetched_one
unfolding start
fetched_one-Reachable =
    step (step initial (read_count (start first_world) refl)) (fetch counted_none first_turn 0 refl)

Reachable-IsValid_example : IsValid 2 0 fetched_one
Reachable-IsValid_example =
    Reachable-IsValid sample_floats sample_json two_slots 2 0 refl refl first_world fetched_one
      fetched_one-Reachable
