-- ===== src/Queue/Tests.antt =====
-- The theorems on the queue's scripts and on the driver at concrete inputs.
mod Workers
mod Managers
mod Stopping
mod Poison
mod Dispatch
mod Concurrent
use laravel_queue_go.Prelude.{◌≡◌, ◌≤◌, refl, arith, [], ◌∷◌, List, some, none}
use laravel_queue_go.Prelude.Bytes.{Bytes, codes, ◌=b◌}
use laravel_queue_go.Prelude.Int.{ℤ, pos}
use laravel_queue_go.Strconv.{parse_int, format_int}
use laravel_queue_go.Queue.Driver.{RawJob}
use laravel_queue_go.Queue.Job.{Job, format_php, next_attempt}
use laravel_queue_go.Queue.Job
use laravel_queue_go.Queue.Keys
use laravel_queue_go.Queue.Keys.Distinct.{AreDistinct, keys_of, keys_of-AreDistinct}
use laravel_queue_go.Queue.Redis.Memory.{memory}
use laravel_queue_go.Queue.Redis.Sets.{count}
use laravel_queue_go.Queue.RedisDriver.{redis_driver}
use laravel_queue_go.Queue.RedisDriver.Redelivery.{IsQuiet, release_keeps_reservation}
use laravel_queue_go.Queue.RedisDriver.Requests.{
  Request, acknowledges, NoneAcknowledges, serve_all, serve_all-Held,
}
use laravel_queue_go.Queue.RedisDriver.Requests
use laravel_queue_go.Queue.RedisDriver.Safety.{Holds}
use laravel_queue_go.Queue.Sample.{sample_json, sample_payload}
use laravel_queue_go.Queue.Sample.Driver.{
  sample_config, quiet_oracle, lossy_oracle, one_job, sample_queue, sample_state, sample_job,
  one_reserved, reserved_state,
}
use laravel_queue_go.Queue.Scripts.Copies.{copies, waiting, scheduled}
use laravel_queue_go.Queue.Scripts.Sorted.{AllSorted}
use laravel_queue_go.Queue.Scripts.Trace.{Call, deletes, NoneDeletes, run_all, no_payload_lost}
use laravel_queue_go.Queue.Scripts.Trace

keys_of-AreDistinct_example : AreDistinct (keys_of (codes "app-") (codes "mail"))
keys_of-AreDistinct_example = keys_of-AreDistinct (codes "app-") (codes "mail")

one_job-AllSorted : AllSorted memory one_job
one_job-AllSorted j = tt

one_job-held : 1 ≤ copies memory (keys_of (codes "app-") (codes "mail")) (codes "1") one_job
unfolding copies waiting scheduled keys_of Keys.ready ◌=b◌ count
one_job-held = omega arith

-- The job is popped, given back for later, and found due.
abbrev sample_calls : List Call
sample_calls =
    Trace.pop (pos 100)
    ∷ Trace.release (codes "1") (pos 20)
    ∷ Trace.delete (codes "2")
    ∷ Trace.migrate_delayed (pos 30) (pos 10)
    ∷ []

sample_calls-NoneDeletes : NoneDeletes (codes "1") sample_calls
unfolding deletes ◌=b◌
sample_calls-NoneDeletes = (refl, (refl, (refl, (refl, tt))))

no_payload_lost_example :
    1
    ≤ copies memory
        (keys_of (codes "app-") (codes "mail"))
        (codes "1")
        (run_all memory (keys_of (codes "app-") (codes "mail")) sample_calls one_job)
no_payload_lost_example =
    no_payload_lost memory (codes "app-") (codes "mail") (codes "1") sample_calls one_job
      one_job-AllSorted sample_calls-NoneDeletes one_job-held

abbrev sample_requests : List Request
sample_requests =
    Requests.pop ∷ Requests.release sample_job (pos 5) ∷ Requests.push (codes "2") ∷ []

sample_requests-NoneAcknowledges : NoneAcknowledges (codes "1") sample_requests
unfolding acknowledges
sample_requests-NoneAcknowledges = (refl, (refl, (refl, tt)))

sample_state-Holds : Holds memory (keys_of (codes "app-") (codes "mail")) (codes "1") one_job
sample_state-Holds = record { sorted = one_job-AllSorted; held = one_job-held }

serve_all-Held_example :
    Holds memory
      (keys_of (codes "app-") (codes "mail"))
      (codes "1")
      (serve_all
        (redis_driver memory lossy_oracle sample_config)
        (codes "mail")
        sample_requests
        sample_state).db
serve_all-Held_example =
    serve_all-Held memory lossy_oracle sample_config (codes "mail") (codes "1") (λ n d h. h)
      sample_requests sample_state sample_requests-NoneAcknowledges sample_state-Holds

quiet_oracle-IsQuiet : IsQuiet memory quiet_oracle sample_config
quiet_oracle-IsQuiet = record { connected = λ n. refl; alone = λ n d. refl }

abbrev popped_job : Job
popped_job = record {
  raw = sample_job;
  payload = sample_payload (pos 1);
  job_data = none;
  format = format_php;
}

popped_body : sample_json.unmarshal_payload (codes "1") ≡ some (sample_payload (pos 1))
unfolding parse_int
popped_body = refl

release_keeps_reservation_example :
    let d =
      (Job.release
        (redis_driver memory quiet_oracle sample_config)
        sample_json
        (pos 7)
        popped_job
        reserved_state).2.db in
    (body : Bytes) × (sample_json.unmarshal_payload body
      ≡ some (next_attempt (sample_payload (pos 1))))
    × (scheduled memory (Keys.reserved (codes "app-") (codes "mail")) (codes "1") d
        ≡ scheduled memory (Keys.reserved (codes "app-") (codes "mail")) (codes "1") one_reserved)
    × (scheduled memory (Keys.delayed (codes "app-") (codes "mail")) body d ≡ 1)
release_keeps_reservation_example =
    release_keeps_reservation memory quiet_oracle sample_config sample_json popped_job (pos 7)
      reserved_state quiet_oracle-IsQuiet popped_body (omega arith, omega arith)
