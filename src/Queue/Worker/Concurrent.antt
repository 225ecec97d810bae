-- ===== src/Queue/Worker/Concurrent.antt =====
-- runConcurrent of pkg/queue/worker.go: the fetch loop and the goroutines that it starts, as steps of
-- one state. A goroutine runs a job, counts it, gives its slot of the semaphore back and leaves the
-- wait group, in this order; between these steps the others go on.
pub mod Invariant
use laravel_queue_go.Prelude.{ℕ, zero, suc, ◌+◌, ◌≤◌, ◌≡◌, true}
use laravel_queue_go.Prelude.Int.{pos, ltb_ℤ}
use laravel_queue_go.Queue.Driver.{RawJob}
use laravel_queue_go.Queue.Worker.{Worker, World}
use laravel_queue_go.Queue.Worker.Loop.{Turn, FetchResult, got_job, empty, stop, error, fetch_job}

-- Where the fetch loop stands: before it reads the count of processed jobs, in fetchJob with that
-- count, at the semaphore with a job, at wg.Wait, or past it.
pub data Phase : Type 0 where
  reading draining returned : Phase
  fetching : ℕ → Phase
  acquiring : RawJob → Phase

-- The goroutines, by how far they are: `running` process a job, `counted` have counted it and hold
-- their slot, `finishing` have given it back. `jobs_started` is no variable of the program: it counts
-- the go statements.
pub record Pool (S : Type 0) : Type 0 where
  pub phase : Phase
  pub running : ℕ
  pub counted : ℕ
  pub finishing : ℕ
  pub jobs_processed : ℕ
  pub jobs_started : ℕ
  pub world : World S

unfoldable pub start : {S : Type 0} → World S → Pool S
start world = record {
  phase = reading;
  running = 0;
  counted = 0;
  finishing = 0;
  jobs_processed = 0;
  jobs_started = 0;
  world = world;
}

-- The switch on the result of fetchJob.
unfoldable pub next_phase : FetchResult → Phase
next_phase (got_job raw) = acquiring raw
next_phase empty = reading
next_phase error = reading
next_phase stop = draining

-- The driver's Pop inside fetchJob is one step; a running job changes the world at any time.
module _ {S : Type 0} (w : Worker S) where
  pub data Step : Pool S → Pool S → Type 0 where
    read_count :
        (p : Pool S) → p.phase ≡ reading → Step p (record p { phase = fetching p.jobs_processed })
    fetch :
        (p : Pool S) (t : Turn) (n : ℕ)
        → p.phase ≡ fetching n
        → Step p (record p {
          phase = next_phase (fetch_job w t n p.world).0;
          world = (fetch_job w t n p.world).1;
        })
    spawn :
        (p : Pool S) (raw : RawJob)
        → p.phase ≡ acquiring raw
        → ltb_ℤ (pos (p.running + p.counted)) w.options.concurrency ≡ true
        → Step p (record p {
          phase = reading;
          running = suc p.running;
          jobs_started = suc p.jobs_started;
        })
    work : (p : Pool S) (world : World S) → 1 ≤ p.running → Step p (record p { world = world })
    count :
        (p : Pool S) (n : ℕ)
        → p.running ≡ suc n
        → Step p (record p {
          running = n;
          counted = suc p.counted;
          jobs_processed = suc p.jobs_processed;
        })
    give_slot :
        (p : Pool S) (n : ℕ)
        → p.counted ≡ suc n
        → Step p (record p { counted = n; finishing = suc p.finishing })
    finish : (p : Pool S) (n : ℕ) → p.finishing ≡ suc n → Step p (record p { finishing = n })
    wait :
        (p : Pool S)
        → p.phase ≡ draining
        → p.running + p.counted + p.finishing ≡ 0
        → Step p (record p { phase = returned })

  pub data Reachable (world : World S) : Pool S → Type 0 where
    initial : Reachable world (start world)
    step : {p q : Pool S} → Reachable world p → Step p q → Reachable world q
