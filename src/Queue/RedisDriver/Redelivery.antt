-- ===== src/Queue/RedisDriver/Redelivery.antt =====
-- Job.Release of pkg/queue/job.go on the Redis driver: the body that a job was popped with against
-- the body that it goes back with.
use laravel_queue_go.Prelude.{ℕ, ◌≡◌, refl, ◌∙◌, ap, false, some, Bool-cases, inl, inr}
use laravel_queue_go.Prelude.Bytes.{Bytes, ◌=b◌, eq_iff, =b-refl}
use laravel_queue_go.Prelude.Int.{ℤ, InInt64, ◌+ℤ◌}
use laravel_queue_go.Queue.Driver.{RawJob, Outcome}
use laravel_queue_go.Queue.Json.{Json}
use laravel_queue_go.Queue.Job.{Job, next_attempt, lift_error}
use laravel_queue_go.Queue.Job
use laravel_queue_go.Queue.Job.Release.{release-next_attempt, next_attempt-ne}
use laravel_queue_go.Queue.Keys
use laravel_queue_go.Queue.Keys.Distinct.{keys_of, keys_of-AreDistinct, AreDistinct}
use laravel_queue_go.Queue.Redis.{Redis}
use laravel_queue_go.Queue.Scripts.{lua_release}
use laravel_queue_go.Queue.Scripts.Copies.{scheduled, scheduled-zadd, scheduled-zrem}
use laravel_queue_go.Queue.RedisDriver.{
  Config, Oracle, State, Link, up, reply, now, call, run, unix, release, redis_driver,
}

module _ (R : Redis) (o : Oracle R) (cfg : Config) where
  -- Every call reaches the server and comes back, and no other client writes meanwhile.
  pub record IsQuiet : Type 0 where
    pub connected : (n : ℕ) → o.link n ≡ up
    pub alone : (n : ℕ) (d : R.Db) → o.others n d ≡ d

  reply-up :
      {A : Type 0} (l : Link) (f : R.Db → A × R.Db) (s : State R)
      → l ≡ up
      → (reply R o l f s).1.db ≡ (f s.db).1
  unfolding reply
  reply-up up f s e = refl
  reply-up (Link.refused x) f s e = cc
  reply-up (Link.reply_lost x) f s e = cc

  pub call-quiet :
      {A : Type 0} (f : R.Db → A × R.Db) (s : State R) → IsQuiet → (call R o f s).1.db ≡ (f s.db).1
  unfolding call
  call-quiet f s q =
      reply-up (o.link s.step) f _ (q.connected s.step) ∙ ap (λ d. (f d).1) (q.alone s.step s.db)

  release-quiet :
      (raw : RawJob) (delay : ℤ) (s : State R)
      → IsQuiet
      → (release R o cfg raw delay s).1.db
        ≡ lua_release R
            (Keys.delayed cfg.prefix raw.queue)
            (Keys.reserved cfg.prefix raw.queue)
            raw.body
            (unix ((o.time s.step).wall +ℤ delay))
            s.db
  unfolding release run now
  release-quiet raw delay s q = call-quiet _ _ q

  lift_error-state : {S : Type 0} (r : Outcome (Unit {0}) × S) → (lift_error r).1 ≡ r.1
  unfolding lift_error
  lift_error-state (Outcome.done a, s) = refl
  lift_error-state (Outcome.failed e, s) = refl

  bodies-differ :
      (json : Json) (b c : Bytes) (p : _)
      → json.unmarshal_payload b ≡ some p
      → json.unmarshal_payload c ≡ some (next_attempt p)
      → InInt64 p.attempts
      → (c =b b) ≡ false
  bodies-differ json b c p hb hc small = elim (Bool-cases (c =b b)) [
    | inl same ↦
        let e : c ≡ b = (eq_iff c b).0 same in
        absurd (next_attempt-ne p small (cc (ap json.unmarshal_payload e)))
    | inr other ↦ other
  ]

  module _ (raw : RawJob) (t : ℤ) (d : R.Db) where
    abbrev delayed_key : Bytes
    delayed_key = Keys.delayed cfg.prefix raw.queue

    abbrev reserved_key : Bytes
    reserved_key = Keys.reserved cfg.prefix raw.queue

    apart : AreDistinct (keys_of cfg.prefix raw.queue)
    apart = keys_of-AreDistinct cfg.prefix raw.queue

    reserved-release :
        (b c : Bytes)
        → (c =b b) ≡ false
        → scheduled R reserved_key b (lua_release R delayed_key reserved_key c t d)
          ≡ scheduled R reserved_key b d
    unfolding lua_release keys_of
    reserved-release b c other =
        simp (scheduled-zadd R, scheduled-zrem R, apart.delayed-reserved, other, =b-refl)

    delayed-release :
        (c : Bytes) → scheduled R delayed_key c (lua_release R delayed_key reserved_key c t d) ≡ 1
    unfolding lua_release
    delayed-release c = simp (scheduled-zadd R, =b-refl)

  -- With a quiet server, a job released through Job.Release, the body that it was popped with
  -- decoding to its payload and its attempts an int64, leaves that body reserved as often as before,
  -- and besides it a new body, the payload with one attempt more, is delayed.
  pub release_keeps_reservation :
      (json : Json) (job : Job) (delay : ℤ) (s : State R)
      → IsQuiet
      → json.unmarshal_payload job.raw.body ≡ some job.payload
      → InInt64 job.payload.attempts
      → let d = (Job.release (redis_driver R o cfg) json delay job s).2.db in
        (body : Bytes) × (json.unmarshal_payload body ≡ some (next_attempt job.payload))
        × (scheduled R (Keys.reserved cfg.prefix job.raw.queue) job.raw.body d
            ≡ scheduled R (Keys.reserved cfg.prefix job.raw.queue) job.raw.body s.db)
        × (scheduled R (Keys.delayed cfg.prefix job.raw.queue) body d ≡ 1)
  unfolding redis_driver
  release_keeps_reservation json job delay s quiet e small =
      let (body, u, ran) = release-next_attempt (redis_driver R o cfg) json job delay s e in
      let raw : RawJob = record job.raw { body = body } in
      let t = unix ((o.time s.step).wall +ℤ delay) in
      let at : (Job.release (redis_driver R o cfg) json delay job s).2.db
          ≡ lua_release R (delayed_key raw t s.db) (reserved_key raw t s.db) body t s.db =
        ap (λ x. x.2.db) ran
        ∙ ap (λ s'. s'.db) (lift_error-state (release R o cfg raw delay s))
        ∙ release-quiet raw delay s quiet in
      (
        body,
        u,
        rw at (
            reserved-release raw t s.db job.raw.body body
              (bodies-differ json job.raw.body body job.payload e u small)),
        rw at (delayed-release raw t s.db body),
      )
