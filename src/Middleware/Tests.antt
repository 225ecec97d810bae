-- ===== src/Middleware/Tests.antt =====
-- A pipeline that counts on the way in, and a lock that one job takes.
use laravel_queue_go.Prelude.{ℕ, ◌≡◌, ◌≤◌, ◌+◌, ◌*◌, refl, none, [], ◌∷◌}
use laravel_queue_go.Prelude.Bytes.{Bytes, codes}
use laravel_queue_go.Middleware.Lock.{Site, up, lock_middleware}
use laravel_queue_go.Middleware.Lock.Alone.{RunsIfFree, taken, lock_middleware-cases}
use laravel_queue_go.Middleware.Lock.Memory.{Locks, locks}
use laravel_queue_go.Middleware.Lock.Overlap.{
  Shared, Reachable, initial, step, enter, overlap_free, overlap_after_expiry,
}
use laravel_queue_go.Middleware.Pipeline.{Action, Middleware, then_run, use_all, then_run-use_all}

abbrev add_one : Middleware ℕ ℕ
add_one next n = next (n + 1)

abbrev double : Middleware ℕ ℕ
double next n = next (2 * n)

abbrev finish : Action ℕ ℕ
finish n = (none, n)

then_run-use_all_example :
    then_run (use_all (add_one ∷ []) (double ∷ [])) finish
    ≡ then_run (add_one ∷ []) (then_run (double ∷ []) finish)
then_run-use_all_example = then_run-use_all (add_one ∷ []) (double ∷ []) finish

abbrev lock_key : Bytes
lock_key = codes "laravel_overlapping:1"

abbrev nobody_in : Shared locks
nobody_in = record { db = λ j. none; time = 5; inside = 0 }

abbrev one_in : Shared locks
one_in = record nobody_in { db = (locks.set_nx 5 lock_key 0 (λ j. none)).1; inside = 1 }

one_in-Reachable : Reachable locks lock_key 0 nobody_in one_in
one_in-Reachable = step initial (enter nobody_in refl)

overlap_free_example : one_in.inside ≤ 1
overlap_free_example = overlap_free locks lock_key nobody_in one_in refl one_in-Reachable

overlap_after_expiry_example :
    (t : Shared locks) × (t.inside ≡ 2) × Reachable locks lock_key 10 nobody_in t
overlap_after_expiry_example = overlap_after_expiry locks lock_key 9 nobody_in refl refl

-- The world is the database alone; the handler does nothing.
abbrev sample_site : Site locks ℕ Locks
sample_site = record {
  key_of = λ s. codes "1";
  time = λ s. 5;
  link = λ s. up;
  db = λ s. s;
  put_db = λ d s. d;
}

abbrev no_locks : Locks
no_locks j = none

abbrev idle : Action ℕ Locks
idle s = (none, s)

lock_middleware-cases_example :
    RunsIfFree locks sample_site
      (codes "laravel_unique_job:")
      60
      none
      idle
      no_locks
      (taken locks sample_site (codes "laravel_unique_job:") 60 none idle no_locks).1
      (lock_middleware locks sample_site (codes "laravel_unique_job:") 60 none idle no_locks)
lock_middleware-cases_example =
    lock_middleware-cases locks sample_site (codes "laravel_unique_job:") 60 none idle no_locks
      (record { connected = λ s. refl; put = λ d s. refl })
