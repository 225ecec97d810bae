-- ===== src/Queue/Worker/Concurrent/Invariant.antt =====
-- What holds in every state that runConcurrent reaches.
use laravel_queue_go.Prelude.{ℕ, suc, ◌+◌, ◌≤◌, ◌<◌, ◌≡◌, refl, true, arith}
use laravel_queue_go.Prelude.Int.{pos, ltb_ℤ}
use laravel_queue_go.PhpSerialize.Floats.{FloatText}
use laravel_queue_go.Queue.Driver.{RawJob}
use laravel_queue_go.Queue.Json.{Json}
use laravel_queue_go.Queue.Worker.{Worker, World}
use laravel_queue_go.Queue.Worker.Loop.{FetchResult, got_job, empty, stop, error, fetch_job}
use laravel_queue_go.Queue.Worker.Loop.Limits.{fetch_job-limit}
use laravel_queue_go.Queue.Worker.Concurrent.{
  Phase, reading, draining, returned, fetching, acquiring, Pool, start, next_phase, Step, Reachable,
  initial, step, read_count, fetch, spawn, work, count, give_slot, finish, wait,
}

-- What a phase promises of the number of jobs started and of goroutines left: m + 1 is the limit, c
-- the number of slots.
abbrev pub PhaseOk : ℕ → ℕ → ℕ → ℕ → Phase → Type 0
PhaseOk c m started left reading = Unit
PhaseOk c m started left (fetching n) = started ≤ n + c
PhaseOk c m started left (acquiring raw) = started ≤ m + c
PhaseOk c m started left draining = Unit
PhaseOk c m started left returned = left ≡ 0

pub record IsValid {S : Type 0} (c m : ℕ) (p : Pool S) : Type 0 where
  pub slots : p.running + p.counted ≤ c
  pub balance : p.jobs_started ≡ p.jobs_processed + p.running
  pub limit : p.jobs_started ≤ suc m + c
  pub phase_ok : PhaseOk c m p.jobs_started (p.running + p.counted + p.finishing) p.phase

keep_phase :
    (c m started left left' : ℕ) (phase : Phase)
    → (left ≡ 0 → left' ≡ 0)
    → PhaseOk c m started left phase
    → PhaseOk c m started left' phase
keep_phase c m k left left' reading f h = tt
keep_phase c m k left left' (fetching n) f h = h
keep_phase c m k left left' (acquiring raw) f h = h
keep_phase c m k left left' draining f h = tt
keep_phase c m k left left' returned f h = f h

module _ {S : Type 0} where
  module _ (fl : FloatText) (json : Json) (w : Worker S) (c m : ℕ)
      (slots : w.options.concurrency ≡ pos c) (limited : w.options.max_jobs ≡ pos (suc m)) where
    below : (n : ℕ) → ltb_ℤ (pos n) w.options.concurrency ≡ true → n < c
    below n h = let g : ltb_ℤ (pos n) (pos c) ≡ true = rw slots at h in ground arith

    phase_of :
        (started left : ℕ) (r : FetchResult) (n : ℕ)
        → started ≤ n + c
        → ((raw : RawJob) → r ≡ got_job raw → n ≤ m)
        → PhaseOk c m started left (next_phase r)
    unfolding next_phase
    phase_of started left (got_job raw) n h at_most = omega (arith, h, at_most raw refl)
    phase_of started left empty n h at_most = tt
    phase_of started left error n h at_most = tt
    phase_of started left stop n h at_most = tt

    step-IsValid : {p q : Pool S} → Step w p q → IsValid c m p → IsValid c m q
    step-IsValid (read_count p e) v = record {
      slots = v.slots;
      balance = v.balance;
      limit = v.limit;
      phase_ok = omega (arith, v.balance, v.slots);
    }
    step-IsValid (fetch p t n e) v =
        let h : PhaseOk c m p.jobs_started (p.running + p.counted + p.finishing) (fetching n) =
          rw e at v.phase_ok in
        record {
          slots = v.slots;
          balance = v.balance;
          limit = v.limit;
          phase_ok =
              phase_of _ _ (fetch_job w t n p.world).0 n h
                λ raw got. fetch_job-limit fl json w t n m p.world raw limited got;
        }
    step-IsValid (spawn p raw e free) v =
        let h : PhaseOk c m p.jobs_started (p.running + p.counted + p.finishing) (acquiring raw) =
          rw e at v.phase_ok in
        record {
          slots = omega (arith, below _ free);
          balance = omega (arith, v.balance);
          limit = omega (arith, h);
          phase_ok = tt;
        }
    step-IsValid (work p world busy) v = record {
      slots = v.slots;
      balance = v.balance;
      limit = v.limit;
      phase_ok = keep_phase c m p.jobs_started _ _ p.phase (λ h. h) v.phase_ok;
    }
    step-IsValid (count p n e) v = record {
      slots = omega (arith, v.slots, e);
      balance = omega (arith, v.balance, e);
      limit = v.limit;
      phase_ok = keep_phase c m p.jobs_started _ _ p.phase (λ h. omega (arith, h, e)) v.phase_ok;
    }
    step-IsValid (give_slot p n e) v = record {
      slots = omega (arith, v.slots, e);
      balance = v.balance;
      limit = v.limit;
      phase_ok = keep_phase c m p.jobs_started _ _ p.phase (λ h. omega (arith, h, e)) v.phase_ok;
    }
    step-IsValid (finish p n e) v = record {
      slots = v.slots;
      balance = v.balance;
      limit = v.limit;
      phase_ok = keep_phase c m p.jobs_started _ _ p.phase (λ h. omega (arith, h, e)) v.phase_ok;
    }
    step-IsValid (wait p e idle) v = record {
      slots = v.slots;
      balance = v.balance;
      limit = v.limit;
      phase_ok = idle;
    }

    -- In every state that a worker with c slots and a limit of m + 1 jobs reaches: at most c jobs are
    -- being processed at a time; every job started is processed or being processed; at most m + 1 + c
    -- jobs are started in all; and when the loop has returned no goroutine is left.
    pub Reachable-IsValid : (world : World S) (p : Pool S) → Reachable w world p → IsValid c m p
    unfolding start
    Reachable-IsValid world p initial = record {
      slots = omega arith;
      balance = omega arith;
      limit = omega arith;
      phase_ok = tt;
    }
    Reachable-IsValid world q (step {p} r s) = step-IsValid s (Reachable-IsValid world p r)
