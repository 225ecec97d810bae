-- ===== src/Queue/RedisDriver.antt =====
-- pkg/queue/redis_driver.go. The driver's state is the database as the server has it and the table
-- of the last migrations. An oracle gives what each call meets: the readings of the clock, what the
-- other clients did to the database before the call, and whether the reply came back.
pub mod Safety
pub mod Redelivery
pub mod Requests
use laravel_queue_go.Prelude.{
  ℕ, suc, ◌+◌, ◌/◌, Bool, true, false, Option, none, some, [], ◌∷◌, if◌then◌else◌,
}
use laravel_queue_go.Prelude.Bytes.{Bytes, codes, ◌=b◌}
use laravel_queue_go.Prelude.Dict.{Dict, lookup, put}
use laravel_queue_go.Prelude.Int.{ℤ, pos, negsuc, ◌+ℤ◌, ltb_ℤ}
use laravel_queue_go.Queue.Driver.{
  DriverError, canceled, deadline_exceeded, failure, RawJob, Outcome, done, failed, Op, Driver,
  ◌>>=◌, ◌>>◌, pure, follow,
}
use laravel_queue_go.Queue.Keys
use laravel_queue_go.Queue.Redis.{Redis}
use laravel_queue_go.Queue.Scripts.{
  lua_push, lua_later, lua_pop, lua_release, lua_delete, lua_migrate, lua_clear,
}

abbrev pub second : ℤ
second = pos 1000000000

-- Seconds since 1970 of a wall time, rounded down: Time.Unix.
unfoldable pub unix : ℤ → ℤ
unix (pos n) = pos (n / 1000000000)
unix (negsuc n) = negsuc (n / 1000000000)

pub record Config : Type 0 where
  pub prefix : Bytes
  pub no_prefix : Bool
  pub retry_after : ℤ
  pub block_for : ℤ
  pub batch_size : ℤ

abbrev pub default_redis_prefix : Bytes
default_redis_prefix = codes "laravel-database-"

unfoldable pub prefix_of : Bool → Bytes → Bytes
prefix_of true prefix = []
prefix_of false [] = default_redis_prefix
prefix_of false (c ∷ prefix) = c ∷ prefix

unfoldable pub or_default : ℤ → ℤ → ℤ
or_default (pos (suc n)) z = pos (suc n)
or_default (negsuc n) z = negsuc n
or_default _ z = z

-- NewRedisDriver: the defaults of the fields left zero.
unfoldable pub new_redis_driver : Config → Config
unfolding prefix_of or_default
new_redis_driver cfg = record cfg {
  prefix = prefix_of cfg.no_prefix cfg.prefix;
  retry_after = or_default cfg.retry_after (pos 90000000000);
  batch_size = or_default cfg.batch_size (pos 100);
}

-- A reading of the clock: wall time, and the monotonic time that time.Since compares.
pub record Instant : Type 0 where
  pub wall : ℤ
  pub monotonic : ℤ

-- A call that fails may have reached the server, or not.
pub data Link : Type 0 where
  up : Link
  refused reply_lost : DriverError → Link

module _ (R : Redis) where
  open R use {Db, lpop, llen}

  pub record Oracle : Type 0 where
    pub time : ℕ → Instant
    pub link : ℕ → Link
    pub others : ℕ → Db → Db

  -- `step` counts the calls and the readings of the clock.
  pub record State : Type 0 where
    pub db : Db
    pub last_migrated_at : Dict ℤ
    pub step : ℕ

  module _ (o : Oracle) where
    unfoldable pub now : Op State Instant
    now s = (done (o.time s.step), record s { step = s.step + 1 })

    reply : {A : Type 0} → Link → (Db → A × Db) → State → Outcome A × State
    reply up f s = let (a, d) = f s.db in (done a, record s { db = d })
    reply (refused e) f s = (failed e, s)
    reply (reply_lost e) f s = (failed e, record s { db = (f s.db).1 })

    -- One round trip to the server, behind what other clients did meanwhile.
    unfoldable pub call : {A : Type 0} → (Db → A × Db) → Op State A
    unfolding reply
    call f s = reply (o.link s.step) f (record s { db = o.others s.step s.db; step = s.step + 1 })

    -- A script whose result is not used.
    unfoldable pub run : (Db → Db) → Op State (Unit {0})
    run f = call λ d. (tt, f d)

    is_due : Option ℤ → ℤ → Bool
    is_due none at = true
    is_due (some last) at = if ltb_ℤ at (last +ℤ second) then false else true

    set_migrated : Bytes → ℤ → Op State (Unit {0})
    set_migrated queue at s =
        (done tt, record s { last_migrated_at = put queue at s.last_migrated_at })

    last_migration : Bytes → Op State (Option ℤ)
    last_migration queue s = (done (lookup queue s.last_migrated_at), s)

    mark_migrated : Bytes → Op State Bool
    unfolding set_migrated now
    mark_migrated queue = do t ← now; set_migrated queue t.monotonic; pure true

    -- A queue that was never migrated has the zero time, centuries ago.
    unfoldable pub should_migrate : Bytes → Op State Bool
    unfolding is_due mark_migrated last_migration now
    should_migrate queue = do
      last ← last_migration queue
      t ← now
      if is_due last t.monotonic then mark_migrated queue else pure false

  module _ (o : Oracle) (cfg : Config) where
    unfoldable pub push : Bytes → Bytes → Op State (Unit {0})
    push queue payload =
        run o (lua_push R (Keys.ready cfg.prefix queue) (Keys.notify cfg.prefix queue) payload)

    unfoldable pub later : Bytes → ℤ → Bytes → Op State (Unit {0})
    later queue delay payload = do
      t ← now o
      run o (
          lua_later R (Keys.delayed cfg.prefix queue) (Keys.notify cfg.prefix queue)
            (unix (t.wall +ℤ delay)) payload)

    unfoldable pub migrate_from : Bytes → Bytes → Bytes → ℤ → Op State (Unit {0})
    migrate_from from to notify t = run o (λ d. (lua_migrate R from to notify t cfg.batch_size d).1)

    unfoldable pub migrate_expired_jobs : Bytes → Op State (Unit {0})
    migrate_expired_jobs queue = do
      t ← now o
      migrate_from (Keys.delayed cfg.prefix queue) (Keys.ready cfg.prefix queue)
          (Keys.notify cfg.prefix queue) (unix t.wall)
      migrate_from (Keys.reserved cfg.prefix queue) (Keys.ready cfg.prefix queue)
          (Keys.notify cfg.prefix queue) (unix t.wall)

    -- Only a cancelled or expired context stops the pop.
    give_up : Outcome (Option Bytes) × State → Outcome (Unit {0}) × State
    give_up (failed canceled, s) = (failed canceled, s)
    give_up (failed deadline_exceeded, s) = (failed deadline_exceeded, s)
    give_up (_, s) = (done tt, s)

    -- BLPOP on the notify list, for as long as block_for.
    unfoldable pub wait_for_notify : Bytes → Op State (Unit {0})
    unfolding give_up
    wait_for_notify queue s =
        if ltb_ℤ (pos 0) cfg.block_for
        then give_up (call o (lpop (Keys.notify cfg.prefix queue)) s)
        else (done tt, s)

    reserved_job : Bytes → Option Bytes → Op State (Option RawJob)
    reserved_job queue none = pure none
    reserved_job queue (some body) = do
      t ← now o
      pure
          (some (record { body = body; queue = queue; reserved_until = t.wall +ℤ cfg.retry_after }))

    unfoldable pub pop_from_queue : Bytes → Op State (Option RawJob)
    unfolding reserved_job
    pop_from_queue queue = do
      t ← now o
      body ← call o (
          lua_pop R (Keys.ready cfg.prefix queue) (Keys.reserved cfg.prefix queue)
            (unix (t.wall +ℤ cfg.retry_after)))
      reserved_job queue body

    unfoldable pub pop : Bytes → Op State (Option RawJob)
    pop queue = do
      due ← should_migrate o queue
      if due then migrate_expired_jobs queue else pure tt
      wait_for_notify queue
      pop_from_queue queue

    -- Delete acknowledges a job.
    unfoldable pub delete : RawJob → Op State (Unit {0})
    delete job = run o (lua_delete R (Keys.reserved cfg.prefix job.queue) job.body)

    -- Release puts a job back with a delay.
    unfoldable pub release : RawJob → ℤ → Op State (Unit {0})
    release job delay = do
      t ← now o
      run o (
          lua_release R (Keys.delayed cfg.prefix job.queue) (Keys.reserved cfg.prefix job.queue)
            job.body (unix (t.wall +ℤ delay)))

    unfoldable pub size : Bytes → Op State ℕ
    size queue = call o (λ d. (llen (Keys.ready cfg.prefix queue) d, d))

    unfoldable pub clear : Bytes → Op State ℕ
    clear queue = call o (
        lua_clear R (Keys.ready cfg.prefix queue) (Keys.delayed cfg.prefix queue)
          (Keys.reserved cfg.prefix queue) (Keys.notify cfg.prefix queue))

    unfoldable pub redis_driver : Driver State
    redis_driver = record {
      push = push;
      later = later;
      pop = pop;
      delete = delete;
      release = release;
      size = size;
      clear = clear;
      migrate_expired_jobs = migrate_expired_jobs;
    }
