-- ===== src/Queue/Worker/Loop.antt =====
-- The fetch loop of pkg/queue/worker.go with one job at a time. What each round meets is a Turn:
-- the loop runs through a list of turns, and is still running where the list ends first.
pub mod Limits
use laravel_queue_go.Prelude.{
  ℕ, suc, ◌+◌, Bool, true, false, ◌&&◌, Option, none, some, List, [], ◌∷◌, if◌then◌else◌,
}
use laravel_queue_go.Prelude.Int.{ℤ, pos, leb_ℤ, ltb_ℤ}
use laravel_queue_go.Prelude.Result.{Result, ok, err, panic, out_of_fuel}
use laravel_queue_go.PhpSerialize.Floats.{FloatText}
use laravel_queue_go.Events.{worker_stopping, Event}
use laravel_queue_go.Queue.Driver.{
  DriverError, Outcome, done, failed, canceled, deadline_exceeded, failure, RawJob,
}
use laravel_queue_go.Queue.Json.{Json}
use laravel_queue_go.Queue.Worker.{
  HandlerError, Worker, WorkerOptions, World, Timing, fire, process,
}

-- fetchCtx is done at the top of fetchJob, the seconds since the loop started, and fetchCtx is done
-- before a sleep of this round is over.
pub record Turn : Type 0 where
  pub stopped : Bool
  pub elapsed : ℤ
  pub woken : Bool
  pub timing : Timing

-- fetchGotJob carries the job that fetchJob returns beside it.
pub data FetchResult : Type 0 where
  got_job : RawJob → FetchResult
  empty stop error : FetchResult

unfoldable pub sleep_or_stop : Turn → ℤ → Bool
sleep_or_stop t d = if leb_ℤ d (pos 0) then true else if t.woken then false else true

-- The event has no field but its type.
abbrev pub stopping_event : Event HandlerError
stopping_event = record {
  type = worker_stopping;
  job_uuid = [];
  job_name = [];
  queue = [];
  attempt = pos 0;
  duration = pos 0;
  error = none;
  connection = [];
}

-- `limit > 0 && n >= limit`.
unfoldable pub reached_limit : ℤ → ℤ → Bool
reached_limit limit n = ltb_ℤ (pos 0) limit && leb_ℤ limit n

module _ {S : Type 0} (w : Worker S) where
  fetched : Turn → Outcome (Option RawJob) → FetchResult
  unfolding sleep_or_stop
  fetched t (failed canceled) = stop
  fetched t (failed _) = if sleep_or_stop t w.options.sleep then error else stop
  fetched t (done none) =
      if w.options.stop_on_empty
      then stop
      else if sleep_or_stop t w.options.sleep
      then empty
      else stop
  fetched t (done (some raw)) = got_job raw

  pop_job : Turn → World S → FetchResult × World S
  unfolding fetched
  pop_job t world =
      let (r, s) = w.driver.pop w.options.queue world.driver_state in
      (fetched t r, record world { driver_state = s })

  unfoldable pub fetch_job : Turn → ℕ → World S → FetchResult × World S
  unfolding pop_job reached_limit fire
  fetch_job t jobs_processed world =
      if t.stopped
      then (stop, fire stopping_event world)
      else if reached_limit w.options.max_jobs (pos jobs_processed)
      then (stop, world)
      else if reached_limit w.options.max_time t.elapsed
      then (stop, world)
      else pop_job t world

-- How a run of the loop ended, or how far it came.
pub record LoopResult (S : Type 0) : Type 0 where
  pub ended : Bool
  pub jobs_processed : ℕ
  pub world : World S

module _ {S : Type 0} (fl : FloatText) (json : Json) (w : Worker S) where
  after_process :
      (ℕ → World S → Result ⊥ (LoopResult S)) → ℕ → Result ⊥ (World S) → Result ⊥ (LoopResult S)
  after_process continue n (ok world) = continue (n + 1) world
  after_process continue n (err e) = absurd e
  after_process continue n panic = panic
  after_process continue n out_of_fuel = out_of_fuel

  -- The switch on the result of fetchJob; `continue` is the next round.
  after_fetch :
      (ℕ → World S → Result ⊥ (LoopResult S))
      → Turn
      → ℕ
      → FetchResult × World S
      → Result ⊥ (LoopResult S)
  unfolding after_process
  after_fetch continue t n (stop, world) =
      ok (record { ended = true; jobs_processed = n; world = world })
  after_fetch continue t n (empty, world) = continue n world
  after_fetch continue t n (error, world) = continue n world
  after_fetch continue t n (got_job raw, world) =
      after_process continue n (process fl json w t.timing raw world)

  unfoldable pub run_single : List Turn → ℕ → World S → Result ⊥ (LoopResult S)
  unfolding after_fetch
  run_single [] n world = ok (record { ended = false; jobs_processed = n; world = world })
  run_single (t ∷ ts) n world = after_fetch (run_single ts) t n (fetch_job w t n world)
