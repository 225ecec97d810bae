-- ===== src/Queue/Worker/Failure.antt =====
-- What becomes of the body of a job whose handler fails: handleFailure over the Redis driver.
use laravel_queue_go.Prelude.{
  ◌≡◌, refl, Bool, true, false, Option, none, some, [], ◌∷◌, ◌++◌, ◌⊎◌, inl, inr,
}
use laravel_queue_go.Prelude.Bytes.{Bytes}
use laravel_queue_go.Prelude.Int.{ℤ, pos}
use laravel_queue_go.PhpSerialize.Floats.{FloatText}
use laravel_queue_go.Events.{job_exception_occurred}
use laravel_queue_go.Queue.Driver.{Outcome}
use laravel_queue_go.Queue.Job.{Job, lift_error, released, release, has_failed, backoff_duration}
use laravel_queue_go.Queue.Json.{Json}
use laravel_queue_go.Queue.Keys.Distinct.{keys_of}
use laravel_queue_go.Queue.Payload.{LaravelPayload}
use laravel_queue_go.Queue.Redis.{Redis}
use laravel_queue_go.Queue.RedisDriver.{Config, Oracle, State, redis_driver}
use laravel_queue_go.Queue.RedisDriver.Safety.{Holds, Loyal, release-Keeps}
use laravel_queue_go.Queue.Worker.{
  HandlerError, FailedRecord, Worker, World, Running, Timing, fire, event_of, put_release,
  put_state, give_back, release_as_asked, release_after_error, fail_permanently, log_failed,
  handle_failure,
}

module _ (R : Redis) (o : Oracle R) (cfg : Config) (x : Bytes) (queue : Bytes)
    (loyal : Loyal R (keys_of cfg.prefix queue) x o) where
  abbrev Held : State R → Type 0
  Held s = Holds R (keys_of cfg.prefix queue) x s.db

  lift_error-state : (r : Outcome (Unit {0}) × State R) → Held r.1 → Held (lift_error r).1
  unfolding lift_error
  lift_error-state (Outcome.done a, s) h = h
  lift_error-state (Outcome.failed e, s) h = h

  released-Held :
      (json : Json) (delay : ℤ) (job : Job) (p : LaravelPayload) (body : Option Bytes) (s : State R)
      → job.raw.queue ≡ queue
      → Held s
      → Held (released (redis_driver R o cfg) json delay job p body s).2
  unfolding released redis_driver
  released-Held json delay job p none s e h = h
  released-Held json delay job p (some body) s e h =
      lift_error-state _
        (release-Keeps R o cfg queue x loyal (record job.raw { body = body }) delay e s h)

  release-Held :
      (json : Json) (delay : ℤ) (job : Job) (s : State R)
      → job.raw.queue ≡ queue
      → Held s
      → Held (release (redis_driver R o cfg) json delay job s).2
  unfolding release
  release-Held json delay job s e h = released-Held json delay job _ _ s e h

module _ (fl : FloatText) (json : Json) (R : Redis) (o : Oracle R) (cfg : Config)
    (w : Worker (State R)) (e : HandlerError) (t : Timing) (r : Running (State R)) where
  -- Whether the queue of the job holds its body, ready, delayed or reserved.
  abbrev pub BodyHeld : World (State R) → Type 0
  BodyHeld world = Holds R (keys_of cfg.prefix r.job.raw.queue) r.job.raw.body world.driver_state.db

  -- The body is held and nothing goes to the failed-job logger, or the logger is called once, with
  -- the body, for a job that is not to be released.
  abbrev pub IsAccounted : World (State R) → Type 0
  IsAccounted after =
      (BodyHeld after × (after.log_calls ≡ r.world.log_calls))
      ⊎ ((entry : FailedRecord) × (entry.payload ≡ r.job.raw.body)
          × (e.release_delay ≡ none)
          × (has_failed r.job t.now ≡ true)
          × (after.log_calls ≡ r.world.log_calls ++ entry ∷ []))

  module _ (loyal : Loyal R (keys_of cfg.prefix r.job.raw.queue) r.job.raw.body o)
      (redis : w.driver ≡ redis_driver R o cfg) (held : BodyHeld r.world) where
    abbrev raised : Running (State R)
    raised = record r {
      world =
          fire (event_of job_exception_occurred r.job r.job.payload.attempts (pos 0) (some e))
            r.world;
    }

    sent_back :
        (delay : ℤ)
        → Holds R
            (keys_of cfg.prefix r.job.raw.queue)
            r.job.raw.body
            (release w.driver json delay r.job r.world.driver_state).2.db
    sent_back delay = rw redis (
        release-Held R o cfg r.job.raw.body r.job.raw.queue loyal json delay r.job
          r.world.driver_state refl held)

    give_back-IsAccounted :
        (d : Option ℤ) (over : Bool)
        → e.release_delay ≡ d
        → has_failed r.job t.now ≡ over
        → IsAccounted (give_back fl json w d over e t.duration raised)
    unfolding give_back release_as_asked release_after_error fail_permanently put_release put_state
        fire log_failed
    give_back-IsAccounted (some delay) over h g = inl (sent_back delay, refl)
    give_back-IsAccounted none false h g = inl (sent_back (backoff_duration r.job), refl)
    give_back-IsAccounted none true h g = inr (_, refl, h, g, refl)

    -- Over the Redis driver, while other clients keep the body, and whichever calls are refused or
    -- lose their reply: after the failure of a job's handler whose queue holds the job's body, ready,
    -- delayed or reserved, the queue still holds it and no job goes to the failed-job logger, or the
    -- logger is called once, with the body, the handler's error holds no ReleaseError, and the job has
    -- failed. Whether the logger stores it is not said.
    pub handle_failure-IsAccounted : IsAccounted (handle_failure fl json w e t r)
    unfolding handle_failure
    handle_failure-IsAccounted =
        give_back-IsAccounted e.release_delay (has_failed r.job t.now) refl refl
