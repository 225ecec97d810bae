-- ===== src/Events/Tests.antt =====
-- A bus with a listener of another type of event.
use laravel_queue_go.Prelude.{ℕ, ◌≡◌, none, [], ◌∷◌, ◌++◌, if◌then◌else◌}
use laravel_queue_go.Prelude.Bytes.{codes, ◌=b◌}
use laravel_queue_go.Prelude.Int.{pos}
use laravel_queue_go.Events.{
  Event, Bus, job_failed, job_processed, name_of, fire, on, clear, new_bus,
}
use laravel_queue_go.Events.Laws.{fire-on-clear}

abbrev sample_bus : Bus ℕ
sample_bus = on job_processed 1 (on job_failed 0 new_bus)

abbrev sample_event : Event ℕ
sample_event = record {
  type = job_failed;
  job_uuid = codes "u";
  job_name = codes "App\\Jobs\\Send";
  queue = codes "mail";
  attempt = pos 1;
  duration = pos 0;
  error = none;
  connection = [];
}

fire-on-clear_example :
    (fire sample_event (on job_failed 2 sample_bus) ≡ (
      if name_of job_failed =b name_of job_failed
      then fire sample_event sample_bus ++ (2, sample_event) ∷ []
      else fire sample_event sample_bus))
    × (fire sample_event (clear job_failed sample_bus)
        ≡ (if name_of job_failed =b name_of job_failed then [] else fire sample_event sample_bus))
fire-on-clear_example = fire-on-clear job_failed 2 sample_bus sample_event
