-- ===== src/Queue/Tests/Stopping.antt =====
-- A worker that is stopped before it runs.
use laravel_queue_go.Prelude.{◌≡◌, refl, none, [], true, false}
use laravel_queue_go.Prelude.Bytes.{codes}
use laravel_queue_go.Prelude.Int.{pos}
use laravel_queue_go.Queue.Redis.Memory.{memory}
use laravel_queue_go.Queue.RedisDriver.{State}
use laravel_queue_go.Queue.Sample.Driver.{sample_driver, sample_state}
use laravel_queue_go.Queue.Worker.{Worker, World, Timing, fire}
use laravel_queue_go.Queue.Worker.Loop.{Turn, FetchResult, fetch_job, stopping_event}
use laravel_queue_go.Queue.Worker.Stop.{
  Control, Reachable, new_control, stop, begin_run, enter_run, start_loop, initial, step, stopped,
  begun, in_section, loop_started, Stop-fetch_job,
}

abbrev stopped_first : Control
stopped_first = start_loop true (enter_run (begin_run (stop new_control)))

stopped_first-Reachable : Reachable stopped_first
stopped_first-Reachable =
    step
      (step (step (step initial (stopped new_control)) (begun (stop new_control) refl))
        (in_section (begin_run (stop new_control)) refl))
      (loop_started (enter_run (begin_run (stop new_control))) true refl)

abbrev idle_worker : Worker (State memory)
idle_worker = record {
  driver = sample_driver;
  options = record {
    queue = codes "mail";
    concurrency = pos 1;
    max_jobs = pos 0;
    max_time = pos 0;
    sleep = pos 3000000000;
    stop_on_empty = false;
  };
  handlers = [];
  default_handler = none;
  pipeline = [];
  connection = codes "redis";
}

abbrev quiet_world : World (State memory)
quiet_world = record { driver_state = sample_state; fired = []; log_calls = [] }

abbrev stopped_turn : Timing → Turn
stopped_turn t = record { stopped = true; elapsed = pos 0; woken = false; timing = t }

abbrev sample_timing : Timing
sample_timing = record { now = pos 0; duration = pos 0 }

Stop-fetch_job_example :
    fetch_job idle_worker (stopped_turn sample_timing) 0 quiet_world
    ≡ (FetchResult.stop, fire stopping_event quiet_world)
Stop-fetch_job_example =
    Stop-fetch_job idle_worker (stopped_turn sample_timing) 0 quiet_world stopped_first
      stopped_first-Reachable refl refl refl
