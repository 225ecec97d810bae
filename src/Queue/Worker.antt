-- ===== src/Queue/Worker.antt =====
-- pkg/queue/worker.go: what becomes of one job, and the loop that fetches jobs. The logger is left
-- out. The state of the world is the driver's, with the events fired so far and the records that the
-- failed-job logger was called with, the latest last. Whether the logger stores a record is left
-- open: its error is only logged.
pub mod Loop
pub mod Failure
pub mod Concurrent
pub mod Poison
pub mod Stop
use laravel_queue_go.Prelude.{
  ℕ, suc, ◌+◌, Bool, true, false, ◌&&◌, Option, none, some, List, [], ◌∷◌, ◌++◌, if◌then◌else◌,
}
use laravel_queue_go.Prelude.Bytes.{Bytes, codes, ◌=b◌}
use laravel_queue_go.Prelude.Dict.{Dict, lookup, put}
use laravel_queue_go.Prelude.Int.{ℤ, pos, leb_ℤ, ltb_ℤ}
use laravel_queue_go.Prelude.Result.{Result, ok, err, panic, out_of_fuel}
use laravel_queue_go.PhpSerialize.Floats.{FloatText}
use laravel_queue_go.Events.{
  EventType, job_processing, job_processed, job_failed, job_exception_occurred,
  job_released_after_error, worker_stopping, Event,
}
use laravel_queue_go.Middleware.Pipeline.{Action, Middleware, then_run, use_all}
use laravel_queue_go.Queue.Driver.{
  DriverError, Outcome, done, failed, canceled, deadline_exceeded, failure, RawJob, Driver,
}
use laravel_queue_go.Queue.Json.{Json}
use laravel_queue_go.Queue.Payload.{default_queue_name}
use laravel_queue_go.Queue.Job.{
  Job, JobError, JobOutcome, parse_job, delete, release, has_failed, backoff_duration,
}

-- An error of a handler: the delay of a ReleaseError that errors.As finds in it, and its text.
pub record HandlerError : Type 0 where
  pub release_delay : Option ℤ
  pub text : Bytes

pub record FailedRecord : Type 0 where
  pub uuid : Bytes
  pub connection : Bytes
  pub queue : Bytes
  pub payload : Bytes
  pub exception : Bytes

pub record World (S : Type 0) : Type 0 where
  pub driver_state : S
  pub fired : List (Event HandlerError)
  pub log_calls : List FailedRecord

-- A handler works on the job, which it can change, and on the world.
pub record Running (S : Type 0) : Type 0 where
  pub job : Job
  pub world : World S

abbrev pub Handler : Type 0 → Type 0
Handler S = Action HandlerError (Running S)

pub record WorkerOptions : Type 0 where
  pub queue : Bytes
  pub concurrency : ℤ
  pub max_jobs : ℤ
  pub max_time : ℤ
  pub sleep : ℤ
  pub stop_on_empty : Bool

-- The fields that Stop uses, stopRequested and fetchCancel, are in the module Stop.
pub record Worker (S : Type 0) : Type 0 where
  pub driver : Driver S
  pub options : WorkerOptions
  pub handlers : Dict (Handler S)
  pub default_handler : Option (Handler S)
  pub pipeline : List (Middleware HandlerError (Running S))
  pub connection : Bytes

unfoldable pub or_queue : Bytes → Bytes
or_queue [] = default_queue_name
or_queue (c ∷ q) = c ∷ q

unfoldable pub or_sleep : ℤ → ℤ
or_sleep z = if leb_ℤ z (pos 0) && leb_ℤ (pos 0) z then pos 3000000000 else z

unfoldable pub or_else {ℓ} : {A : Type ℓ} → Option A → Option A → Option A
or_else none b = b
or_else (some a) b = some a

-- An event about a job; the events that leave a field out have its zero value.
unfoldable pub event_of : EventType → Job → ℤ → ℤ → Option HandlerError → Event HandlerError
event_of t job attempt duration e = record {
  type = t;
  job_uuid = job.payload.uuid;
  job_name = job.payload.display_name;
  queue = job.raw.queue;
  attempt = attempt;
  duration = duration;
  error = e;
  connection = [];
}

module _ {S : Type 0} where
  unfoldable pub new_worker :
      Driver S
      → WorkerOptions
      → Dict (Handler S)
      → Option (Handler S)
      → List (Middleware HandlerError (Running S))
      → Bytes
      → Worker S
  unfolding or_queue or_sleep
  new_worker driver opts handlers default_handler mw connection = record {
    driver = driver;
    options = record opts { queue = or_queue opts.queue; sleep = or_sleep opts.sleep };
    handlers = handlers;
    default_handler = default_handler;
    pipeline = mw;
    connection = connection;
  }

  unfoldable pub register : Bytes → Handler S → Worker S → Worker S
  register name h w = record w { handlers = put name h w.handlers }

  unfoldable pub register_default : Handler S → Worker S → Worker S
  register_default h w = record w { default_handler = some h }

  unfoldable pub use_middleware : List (Middleware HandlerError (Running S)) → Worker S → Worker S
  use_middleware m w = record w { pipeline = use_all w.pipeline m }

  unfoldable pub resolve_handler : Worker S → Job → Option (Handler S)
  unfolding or_else
  resolve_handler w job =
      or_else (lookup job.payload.payload_data.command_name w.handlers)
        (or_else (lookup job.payload.display_name w.handlers) w.default_handler)

  unfoldable pub fire : Event HandlerError → World S → World S
  fire e world = record world { fired = world.fired ++ e ∷ [] }

  -- failed.Log, whose error is only logged.
  unfoldable pub log_failed : FailedRecord → World S → World S
  log_failed r world = record world { log_calls = world.log_calls ++ r ∷ [] }

  -- What a call of the driver leaves; its error is only logged.
  unfoldable pub put_state : JobOutcome × S → World S → World S
  put_state (r, s) world = record world { driver_state = s }

  put_raw_state : Outcome (Unit {0}) × S → World S → World S
  put_raw_state (r, s) world = record world { driver_state = s }

  unfoldable pub put_release : Job × JobOutcome × S → World S → Running S
  put_release (job, r, s) world = record { job = job; world = record world { driver_state = s } }

-- What a run of `process` takes from the clock: the handler's duration and the time in Unix seconds
-- at which HasFailed asks for it.
pub record Timing : Type 0 where
  pub duration : ℤ
  pub now : ℤ

module _ {S : Type 0} (fl : FloatText) (json : Json) (w : Worker S) where
  -- A ReleaseError: the job goes back with the delay that it names.
  unfoldable pub release_as_asked : ℤ → Running S → World S
  unfolding put_release
  release_as_asked delay r =
      (put_release (release w.driver json delay r.job r.world.driver_state) r.world).world

  -- Attempts are left: the job goes back with its backoff.
  unfoldable pub release_after_error : HandlerError → Running S → World S
  unfolding put_release fire event_of
  release_after_error e r =
      let r' =
        put_release (release w.driver json (backoff_duration r.job) r.job r.world.driver_state)
          r.world in
      fire (event_of job_released_after_error r'.job (pos 0) (pos 0) (some e)) r'.world

  -- No attempts are left: the job is deleted, handed to the failed-job logger and reported.
  unfoldable pub fail_permanently : HandlerError → ℤ → Running S → World S
  unfolding put_state fire event_of log_failed
  fail_permanently e duration r =
      let job = r.job in
      let deleted = put_state (delete w.driver json job r.world.driver_state) r.world in
      let logged =
        log_failed
          (record {
            uuid = job.payload.uuid;
            connection = w.connection;
            queue = job.raw.queue;
            payload = job.raw.body;
            exception = e.text;
          })
          deleted in
      fire (event_of job_failed job job.payload.attempts duration (some e)) logged

  -- The tests for a ReleaseError and for HasFailed, behind the report of the exception.
  unfoldable pub give_back : Option ℤ → Bool → HandlerError → ℤ → Running S → World S
  unfolding release_as_asked release_after_error fail_permanently
  give_back (some delay) over e duration r = release_as_asked delay r
  give_back none false e duration r = release_after_error e r
  give_back none true e duration r = fail_permanently e duration r

  unfoldable pub handle_failure : HandlerError → Timing → Running S → World S
  unfolding give_back fire event_of
  handle_failure e t r =
      let raised = record r {
        world =
            fire (event_of job_exception_occurred r.job r.job.payload.attempts (pos 0) (some e))
              r.world;
      } in
      give_back e.release_delay (has_failed r.job t.now) e t.duration raised

  succeed : Timing → Running S → World S
  unfolding put_state fire event_of
  succeed t r =
      let deleted = put_state (delete w.driver json r.job r.world.driver_state) r.world in
      fire (event_of job_processed r.job r.job.payload.attempts t.duration none) deleted

  settle : Timing → Option HandlerError × Running S → World S
  unfolding succeed handle_failure
  settle t (none, r) = succeed t r
  settle t (some e, r) = handle_failure e t r

  run_handler : Timing → Option (Handler S) → Running S → World S
  unfolding settle put_state
  run_handler t none r = put_state (delete w.driver json r.job r.world.driver_state) r.world
  run_handler t (some handler) r = settle t (then_run w.pipeline handler r)

  unfoldable pub process_job : Timing → RawJob → World S → Result JobError Job → Result ⊥ (World S)
  unfolding run_handler fire event_of put_raw_state resolve_handler
  process_job t raw world (ok job) = ok (
      run_handler t (resolve_handler w job) (record {
        job = job;
        world = fire (event_of job_processing job job.payload.attempts (pos 0) none) world;
      }))
  process_job t raw world (err e) =
      ok (put_raw_state (w.driver.delete raw world.driver_state) world)
  process_job t raw world panic = panic
  process_job t raw world out_of_fuel = out_of_fuel

  -- A body that does not parse is deleted, and so is a job that no handler is registered for.
  unfoldable pub process : Timing → RawJob → World S → Result ⊥ (World S)
  unfolding process_job
  process t raw world = process_job t raw world (parse_job fl json raw)
