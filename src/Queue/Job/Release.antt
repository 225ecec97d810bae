-- ===== src/Queue/Job/Release.antt =====
-- Release of pkg/queue/job.go: the body under which a job goes back.
use laravel_queue_go.Prelude.{
  ℕ, suc, ◌-◌, ◌≤◌, ◌<◌, ◌≡◌, ◌≢◌, refl, ap, ◌==◌, some, arith, if◌then◌else◌,
}
use laravel_queue_go.Prelude.Bytes.{Bytes}
use laravel_queue_go.Prelude.Int.{ℤ, pos, negsuc, ◌+ℤ◌, wrap_int64, InInt64, max_int64}
use laravel_queue_go.Queue.Driver.{Driver}
use laravel_queue_go.Queue.Json.{Json}
use laravel_queue_go.Queue.Payload.{LaravelPayload}
use laravel_queue_go.Queue.Job.{Job, lift_error, released, release, next_attempt}

wrap_int64-InInt64 : (z : ℤ) → InInt64 (wrap_int64 z)
unfolding wrap_int64
wrap_int64-InInt64 (pos n) = ground arith
wrap_int64-InInt64 (negsuc n) = ground arith

wrap_int64-pos : (n : ℕ) → n ≤ max_int64 → wrap_int64 (pos n) ≡ pos n
unfolding wrap_int64
wrap_int64-pos n h = ground arith

succ-pos : (n : ℕ) → pos n +ℤ pos 1 ≡ pos (suc n)
unfolding ◌+ℤ◌
succ-pos n = ground arith

succ-negsuc : (n : ℕ) → negsuc n +ℤ pos 1 ≡ (if n == 0 then pos 0 else negsuc (n - 1))
unfolding ◌+ℤ◌
succ-negsuc n = ground arith

-- The count of attempts changes, also where it wraps.
succ-ne : (z : ℤ) → InInt64 z → wrap_int64 (z +ℤ pos 1) ≢ z
succ-ne (pos n) h = rw (succ-pos n) (unfold wrap_int64 in ground arith)
succ-ne (negsuc n) h = rw (succ-negsuc n) (unfold wrap_int64 in ground arith)

pub next_attempt-ne : (p : LaravelPayload) → InInt64 p.attempts → next_attempt p ≢ p
unfolding next_attempt
next_attempt-ne p h e = succ-ne p.attempts h (ap (λ q. q.attempts) e)

pub next_attempt-pos :
    (p : LaravelPayload) (n : ℕ)
    → p.attempts ≡ pos n
    → n < max_int64
    → (next_attempt p).attempts ≡ pos (suc n)
unfolding next_attempt
next_attempt-pos p n e h = rw (e, succ-pos n) (wrap_int64-pos (suc n) h)

module _ {S : Type 0} (driver : Driver S) (json : Json) where
  -- What a job, decoded from the body that it was popped with, goes back as: Release hands the
  -- driver a body that decodes to the payload with one attempt more, in place of the body popped.
  pub release-next_attempt :
      (job : Job) (delay : ℤ) (s : S)
      → json.unmarshal_payload job.raw.body ≡ some job.payload
      → (body : Bytes) × (json.unmarshal_payload body ≡ some (next_attempt job.payload))
        × (release driver json delay job s ≡ (
            let raw = record job.raw { body = body } in
            let (r, s') = lift_error (driver.release raw delay s) in
            (record job { payload = next_attempt job.payload; raw = raw }, r, s')))
  unfolding release
  release-next_attempt job delay s e =
      let (body, m, u) =
        json.marshal-decoded job.raw.body job.payload _ e
          (wrap_int64-InInt64 (job.payload.attempts +ℤ pos 1)) in
      (body, u, rw (m, released) refl)
