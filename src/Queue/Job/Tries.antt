-- ===== src/Queue/Job/Tries.antt =====
-- How often a failing job runs: HasFailed against the attempts that Release counts.
use laravel_queue_go.Prelude.{
  ℕ, zero, suc, ◌≤◌, ◌≡◌, ◌↔◌, refl, ◌∙◌, Bool, true, false, ◌||◌, Option, none, some, arith,
}
use laravel_queue_go.Prelude.Int.{ℤ, pos, max_int64}
use laravel_queue_go.Queue.Payload.{LaravelPayload}
use laravel_queue_go.Queue.Job.{Job, has_failed, reached, next_attempt}
use laravel_queue_go.Queue.Job.Release.{next_attempt-pos}

-- The payload after n releases.
unfoldable pub released_times : ℕ → LaravelPayload → LaravelPayload
released_times zero p = p
released_times (suc n) p = next_attempt (released_times n p)

attempts-released :
    (n : ℕ) (p : LaravelPayload)
    → p.attempts ≡ pos 0
    → n ≤ max_int64
    → (released_times n p).attempts ≡ pos n
unfolding released_times
attempts-released zero p e h = e
attempts-released (suc n) p e h =
    next_attempt-pos (released_times n p) n (attempts-released n p e (omega arith)) h

max_tries-released : (n : ℕ) (p : LaravelPayload) → (released_times n p).max_tries ≡ p.max_tries
unfolding released_times next_attempt
max_tries-released zero p = refl
max_tries-released (suc n) p = max_tries-released n p

retry_until-released :
    (n : ℕ) (p : LaravelPayload) → (released_times n p).retry_until ≡ p.retry_until
unfolding released_times next_attempt
retry_until-released zero p = refl
retry_until-released (suc n) p = retry_until-released n p

reached_lem :
    (bound : Option ℤ) (attempts : ℤ) (m n : ℕ)
    → bound ≡ some (pos m)
    → attempts ≡ pos n
    → (reached bound attempts ≡ true) ↔ (m ≤ n)
unfolding reached
reached_lem none a m n e f = (cc, cc)
reached_lem (some b) a m n e f = let same : b ≡ pos m = cc in rw (same, f) (ground arith)

open_ended : (bound : Option ℤ) (now : ℤ) → bound ≡ none → reached bound now ≡ false
unfolding reached
open_ended none now e = refl
open_ended (some b) now e = cc

-- A job that was dispatched with maxTries m, no retryUntil and no attempts, and was released n times
-- since, n an int64, has failed exactly when m ≤ n, whatever the time: in the run after m - 1 releases, the m-th
-- one, it has not failed yet.
pub has_failed-tries :
    (job : Job) (p : LaravelPayload) (m n : ℕ) (now : ℤ)
    → p.attempts ≡ pos 0
    → p.max_tries ≡ some (pos m)
    → p.retry_until ≡ none
    → n ≤ max_int64
    → job.payload ≡ released_times n p
    → (has_failed job now ≡ true) ↔ (m ≤ n)
unfolding has_failed
has_failed-tries job p m n now zero_attempts tries no_deadline small e =
    let counted =
      reached_lem (released_times n p).max_tries (released_times n p).attempts m n
        (max_tries-released n p ∙ tries) (attempts-released n p zero_attempts small) in
    let forever =
      open_ended (released_times n p).retry_until now (retry_until-released n p ∙ no_deadline) in
    rw e (
      rw forever
        (or-false (reached (released_times n p).max_tries (released_times n p).attempts) counted))
  where
    or-false : (b : Bool) {P : Type 0} → (b ≡ true) ↔ P → ((b || false) ≡ true) ↔ P
    or-false true h = h
    or-false false h = h
