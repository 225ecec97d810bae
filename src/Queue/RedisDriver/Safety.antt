-- ===== src/Queue/RedisDriver/Safety.antt =====
-- The operations of pkg/queue/redis_driver.go against a payload that the queue holds.
use laravel_queue_go.Prelude.{
  ℕ, ◌≤◌, ◌≡◌, refl, Bool, true, false, Option, none, some, if◌then◌else◌, Bool-cases, inl, inr,
}
use laravel_queue_go.Prelude.Bytes.{Bytes, ◌=b◌}
use laravel_queue_go.Prelude.Int.{ℤ, pos, ◌+ℤ◌, ltb_ℤ}
use laravel_queue_go.Queue.Driver.{
  canceled, deadline_exceeded, failure, RawJob, Outcome, done, failed, Op, ◌>>=◌, ◌>>◌, pure,
  follow,
}
use laravel_queue_go.Queue.Keys
use laravel_queue_go.Queue.Keys.Distinct.{QueueKeys, keys_of, keys_of-AreDistinct}
use laravel_queue_go.Queue.Redis.{Redis}
use laravel_queue_go.Queue.Scripts.Copies.{copies}
use laravel_queue_go.Queue.Scripts.Sorted.{AllSorted}
use laravel_queue_go.Queue.Scripts.Trace.{
  Call, push, later, pop, wait, delete, release, migrate_delayed, migrate_reserved, deletes,
  run-Held, run-AllSorted,
}
use laravel_queue_go.Queue.Scripts.Trace
use laravel_queue_go.Queue.RedisDriver
use laravel_queue_go.Queue.RedisDriver.{
  Config, Oracle, State, Link, up, refused, reply_lost, reply, now, call, run, unix, should_migrate,
  mark_migrated, set_migrated, last_migration, is_due, migrate_from, migrate_expired_jobs, give_up,
  wait_for_notify, reserved_job, pop_from_queue,
}

module _ (R : Redis) (k : QueueKeys) (x : Bytes) where
  -- The sorted sets are in order, and the queue holds the payload.
  pub record Holds (d : R.Db) : Type 0 where
    pub sorted : AllSorted R d
    pub held : 1 ≤ copies R k x d

  -- What another client does keeps the payload.
  abbrev pub Loyal : Oracle R → Type 0
  Loyal o = (n : ℕ) (d : R.Db) → Holds d → Holds (o.others n d)

  abbrev pub Keeps : {A : Type 0} → Op (State R) A → Type 0
  Keeps m = (s : State R) → Holds s.db → Holds (m s).1.db

  follow-Holds :
      {A B : Type 0} (r : Outcome A × State R) (f : A → Op (State R) B)
      → Holds r.1.db
      → ((a : A) → Keeps (f a))
      → Holds (follow r f).1.db
  follow-Holds (done a, s) f h g = g a s h
  follow-Holds (failed e, s) f h g = h

  >>=-Keeps :
      {A B : Type 0} (m : Op (State R) A) (f : A → Op (State R) B)
      → Keeps m
      → ((a : A) → Keeps (f a))
      → Keeps (m >>= f)
  >>=-Keeps m f h g s hs = follow-Holds (m s) f (h s hs) g

  module _ (o : Oracle R) (loyal : Loyal o) where
    now-Keeps : Keeps (now R o)
    unfolding now
    now-Keeps s h = h

    reply-Holds :
        {A : Type 0} (l : Link) (f : R.Db → A × R.Db) (s : State R)
        → Holds s.db
        → ((d : R.Db) → Holds d → Holds (f d).1)
        → Holds (reply R o l f s).1.db
    unfolding reply
    reply-Holds up f s h g = g s.db h
    reply-Holds (refused e) f s h g = h
    reply-Holds (reply_lost e) f s h g = g s.db h

    call-Keeps :
        {A : Type 0} (f : R.Db → A × R.Db)
        → ((d : R.Db) → Holds d → Holds (f d).1)
        → Keeps (call R o f)
    unfolding call
    call-Keeps f g s h = reply-Holds (o.link s.step) f _ (loyal s.step s.db h) g

module _ (R : Redis) (o : Oracle R) (cfg : Config) (queue x : Bytes) where
  -- The keys of the queue under the driver's prefix.
  abbrev pub keys : QueueKeys
  keys = keys_of cfg.prefix queue

  run-Holds :
      (c : Call)
      → deletes x c ≡ false
      → (d : R.Db) → Holds R keys x d
      → Holds R keys x (Trace.run R keys c d)
  run-Holds c e d h = record {
    sorted = run-AllSorted R keys c d h.sorted;
    held = run-Held R keys (keys_of-AreDistinct cfg.prefix queue) x c d h.sorted e h.held;
  }

  module _ (loyal : Loyal R keys x o) where
    tick-Keeps : Keeps R keys x (now R o)
    tick-Keeps = now-Keeps R keys x o loyal

    bind-Keeps :
        {A B : Type 0} (m : Op (State R) A) (f : A → Op (State R) B)
        → Keeps R keys x m
        → ((a : A) → Keeps R keys x (f a))
        → Keeps R keys x (m >>= f)
    bind-Keeps = >>=-Keeps R keys x

    pub push-Keeps : (p : Bytes) → Keeps R keys x (RedisDriver.push R o cfg queue p)
    unfolding RedisDriver.push run keys_of Trace.run deletes
    push-Keeps p = call-Keeps R keys x o loyal _ (run-Holds (push p) refl)

    pub later-Keeps :
        (delay : ℤ) (p : Bytes) → Keeps R keys x (RedisDriver.later R o cfg queue delay p)
    unfolding RedisDriver.later run keys_of Trace.run deletes
    later-Keeps delay p =
        bind-Keeps (now R o) _ tick-Keeps
          λ t. call-Keeps R keys x o loyal _ (run-Holds (later (unix (t.wall +ℤ delay)) p) refl)

    pub size-Keeps : Keeps R keys x (RedisDriver.size R o cfg queue)
    unfolding RedisDriver.size
    size-Keeps = call-Keeps R keys x o loyal _ λ d h. h

    pub migrate-Keeps : Keeps R keys x (migrate_expired_jobs R o cfg queue)
    unfolding migrate_expired_jobs migrate_from run keys_of Trace.run deletes
    migrate-Keeps = bind-Keeps (now R o) _ tick-Keeps λ t.
        bind-Keeps _ _
          (call-Keeps R keys x o loyal _
            (run-Holds (migrate_delayed (unix t.wall) cfg.batch_size) refl))
          λ _.
            call-Keeps R keys x o loyal _
              (run-Holds (migrate_reserved (unix t.wall) cfg.batch_size) refl)

    mark-Keeps : Keeps R keys x (mark_migrated R o queue)
    unfolding mark_migrated set_migrated
    mark-Keeps =
        bind-Keeps (now R o) (λ t. set_migrated R o queue t.monotonic >> pure true) tick-Keeps
          λ t s h. h

    should_migrate-Keeps : Keeps R keys x (should_migrate R o queue)
    unfolding should_migrate last_migration
    should_migrate-Keeps =
        bind-Keeps (last_migration R o queue)
          (λ last. now R o >>= λ t.
            if is_due R o last t.monotonic then mark_migrated R o queue else pure false)
          (λ s h. h)
          λ last.
            bind-Keeps (now R o)
              (λ t. if is_due R o last t.monotonic then mark_migrated R o queue else pure false)
              tick-Keeps λ t. choose (is_due R o last t.monotonic)
      where
        choose : (b : Bool) → Keeps R keys x (if b then mark_migrated R o queue else pure false)
        choose true = mark-Keeps
        choose false = λ s h. h

    give_up-Holds :
        (r : Outcome (Option Bytes) × State R)
        → Holds R keys x r.1.db
        → Holds R keys x (give_up R o cfg r).1.db
    unfolding give_up
    give_up-Holds (done a, s) h = h
    give_up-Holds (failed canceled, s) h = h
    give_up-Holds (failed deadline_exceeded, s) h = h
    give_up-Holds (failed failure, s) h = h

    wait-Keeps : Keeps R keys x (wait_for_notify R o cfg queue)
    unfolding wait_for_notify keys_of Trace.run deletes
    wait-Keeps s h = elim (Bool-cases (ltb_ℤ (pos 0) cfg.block_for)) [
      | inl blocks ↦ rw blocks (
          give_up-Holds (call R o (R.lpop (Keys.notify cfg.prefix queue)) s) (
            call-Keeps R keys x o loyal (R.lpop (Keys.notify cfg.prefix queue))
              (run-Holds wait refl) s h))
      | inr not ↦ rw not h
    ]

    reserved_job-Keeps : (b : Option Bytes) → Keeps R keys x (reserved_job R o cfg queue b)
    unfolding reserved_job
    reserved_job-Keeps none = λ s h. h
    reserved_job-Keeps (some body) =
        bind-Keeps (now R o)
          (λ t. pure (
            some
              (record { body = body; queue = queue; reserved_until = t.wall +ℤ cfg.retry_after })))
          tick-Keeps λ t s h. h

    pop_from_queue-Keeps : Keeps R keys x (pop_from_queue R o cfg queue)
    unfolding pop_from_queue keys_of Trace.run deletes
    pop_from_queue-Keeps = bind-Keeps (now R o) _ tick-Keeps λ t.
        bind-Keeps _ _
          (call-Keeps R keys x o loyal _ (run-Holds (pop (unix (t.wall +ℤ cfg.retry_after))) refl))
          reserved_job-Keeps

    pub pop-Keeps : Keeps R keys x (RedisDriver.pop R o cfg queue)
    unfolding RedisDriver.pop
    pop-Keeps =
        let fetch : Op (State R) (Option RawJob) =
          wait_for_notify R o cfg queue >> pop_from_queue R o cfg queue in
        bind-Keeps (should_migrate R o queue)
          (λ due. (if due then migrate_expired_jobs R o cfg queue else pure tt) >> fetch)
          should_migrate-Keeps
          λ due.
            bind-Keeps (if due then migrate_expired_jobs R o cfg queue else pure tt) (λ _. fetch)
              (choose due)
              λ _.
                bind-Keeps (wait_for_notify R o cfg queue) (λ _. pop_from_queue R o cfg queue)
                  wait-Keeps λ _. pop_from_queue-Keeps
      where
        choose :
            (b : Bool) → Keeps R keys x (if b then migrate_expired_jobs R o cfg queue else pure tt)
        choose true = migrate-Keeps
        choose false = λ s h. h

    pub release-Keeps :
        (job : RawJob) (delay : ℤ)
        → job.queue ≡ queue
        → Keeps R keys x (RedisDriver.release R o cfg job delay)
    unfolding RedisDriver.release run keys_of Trace.run deletes
    release-Keeps job delay e = rw e (
        bind-Keeps (now R o) _ tick-Keeps λ t.
          call-Keeps R keys x o loyal _
            (run-Holds (release job.body (unix (t.wall +ℤ delay))) refl))

    pub delete-Keeps :
        (job : RawJob)
        → job.queue ≡ queue
        → (job.body =b x) ≡ false
        → Keeps R keys x (RedisDriver.delete R o cfg job)
    unfolding RedisDriver.delete run keys_of Trace.run deletes
    delete-Keeps job e other =
        rw e (call-Keeps R keys x o loyal _ (run-Holds (delete job.body) other))
