-- ===== src/Queue/Worker/Loop/Limits.antt =====
-- How the limits and Stop end the loop.
use laravel_queue_go.Prelude.{
  ℕ, suc, ◌+◌, ◌≤◌, ◌≡◌, ◌≢◌, refl, Bool, true, false, List, [], ◌∷◌, if◌then◌else◌, arith,
  Bool-cases, inl, inr,
}
use laravel_queue_go.Prelude.Int.{pos}
use laravel_queue_go.Prelude.Result.{Result, ok, err, panic, out_of_fuel}
use laravel_queue_go.PhpSerialize.Floats.{FloatText}
use laravel_queue_go.Queue.Driver.{RawJob}
use laravel_queue_go.Queue.Json.{Json}
use laravel_queue_go.Queue.Job.{Job, JobError}
use laravel_queue_go.Queue.Job.Parse.{parse_job-ne-out_of_fuel}
use laravel_queue_go.Queue.Worker.{Worker, World, Timing, fire, process, process_job}
use laravel_queue_go.Queue.Worker.Loop.{
  Turn, FetchResult, got_job, empty, stop, error, LoopResult, reached_limit, stopping_event,
  fetch_job, after_process, after_fetch, run_single,
}

-- The loop came to a result of which P holds, unless the decoder panicked.
abbrev pub Returned : {S : Type 0} → (LoopResult S → Type 0) → Result ⊥ (LoopResult S) → Type 0
Returned P (ok l) = P l
Returned P (err e) = Unit
Returned P panic = Unit
Returned P out_of_fuel = ⊥

module _ {S : Type 0} (fl : FloatText) (json : Json) (w : Worker S) where
  process_job-fuel :
      (t : Timing) (raw : RawJob) (world : World S) (r : Result JobError Job)
      → r ≢ out_of_fuel
      → process_job fl json w t raw world r ≢ out_of_fuel
  unfolding process_job
  process_job-fuel t raw world (ok job) h = cc
  process_job-fuel t raw world (err e) h = cc
  process_job-fuel t raw world panic h = cc
  process_job-fuel t raw world out_of_fuel h = λ _. h refl

  after_process-Returned :
      (P : LoopResult S → Type 0) (continue : ℕ → World S → Result ⊥ (LoopResult S)) (n : ℕ)
      (r : Result ⊥ (World S))
      → r ≢ out_of_fuel
      → ((world : World S) → Returned P (continue (n + 1) world))
      → Returned P (after_process fl json w continue n r)
  unfolding after_process
  after_process-Returned P continue n (ok world) h g = g world
  after_process-Returned P continue n (err e) h g = absurd e
  after_process-Returned P continue n panic h g = tt
  after_process-Returned P continue n out_of_fuel h g = h refl

  process-fuel :
      (t : Timing) (raw : RawJob) (world : World S) → process fl json w t raw world ≢ out_of_fuel
  unfolding process
  process-fuel t raw world = process_job-fuel t raw world _ (parse_job-ne-out_of_fuel fl json raw)

  -- One round: it ends the loop, goes on, or processes a job and goes on.
  after_fetch-Returned :
      (P : LoopResult S → Type 0) (continue : ℕ → World S → Result ⊥ (LoopResult S)) (t : Turn)
      (n : ℕ) (r : FetchResult × World S)
      → (r.0 ≡ stop → P (record { ended = true; jobs_processed = n; world = r.1 }))
      → ((world : World S) → Returned P (continue n world))
      → ((raw : RawJob) (world : World S) → r.0 ≡ got_job raw → Returned P (continue (n + 1) world))
      → Returned P (after_fetch fl json w continue t n r)
  unfolding after_fetch
  after_fetch-Returned P continue t n (stop, world) ends goes works = ends refl
  after_fetch-Returned P continue t n (empty, world) ends goes works = goes world
  after_fetch-Returned P continue t n (error, world) ends goes works = goes world
  after_fetch-Returned P continue t n (got_job raw, world) ends goes works =
      after_process-Returned P continue n _ (process-fuel t.timing raw world)
        (λ world'. works raw world' refl)

  below_limit : (n m : ℕ) → reached_limit (pos (suc m)) (pos n) ≡ false → n ≤ m
  unfolding reached_limit
  below_limit n m h = ground arith

  -- At the limit nothing is fetched.
  pub fetch_job-limit :
      (t : Turn) (n m : ℕ) (world : World S) (raw : RawJob)
      → w.options.max_jobs ≡ pos (suc m)
      → (fetch_job w t n world).0 ≡ got_job raw
      → n ≤ m
  unfolding fetch_job
  fetch_job-limit t n m world raw e h = elim (Bool-cases (reached_limit (pos (suc m)) (pos n))) [
    | inl reached ↦ absurd (at_limit t.stopped (rw (e, reached) at h))
    | inr below ↦ below_limit n m below
  ]
    where
      at_limit :
          (b : Bool)
          → (let r : FetchResult × World S =
                if b then (stop, fire stopping_event world) else (stop, world) in
              r.0)
            ≡ got_job raw
          → ⊥
      at_limit true = cc
      at_limit false = cc

  -- With a positive limit of m + 1 jobs, the loop, started with at most that many jobs processed,
  -- has processed at most that many at its end, and wherever the turns leave it, unless Decode
  -- panicked on a body.
  pub run_single-max_jobs :
      (m : ℕ)
      → w.options.max_jobs ≡ pos (suc m)
      → (ts : List Turn) (n : ℕ) (world : World S) → n ≤ suc m
      → Returned (λ l. l.jobs_processed ≤ suc m) (run_single fl json w ts n world)
  unfolding run_single
  run_single-max_jobs m e [] n world le = le
  run_single-max_jobs m e (t ∷ ts) n world le =
      after_fetch-Returned (λ l. l.jobs_processed ≤ suc m) (run_single fl json w ts) t n
        (fetch_job w t n world) (λ _. le) (λ world'. run_single-max_jobs m e ts n world' le)
        (λ raw world' got.
          run_single-max_jobs m e ts (n + 1) world'
            (omega (arith, fetch_job-limit t n m world raw e got)))
