-- ===== src/Command.antt =====
-- cmd/lqworker/main.go: from the flags and the environment to the driver and the worker that run. The
-- flags are those that package flag has parsed; the connection check, the logger, the signals and
-- the exit codes are left out.
pub mod Start
pub mod Precedence
mod Tests
use laravel_queue_go.Prelude.{
  ℕ, Bool, true, false, Option, none, some, List, [], ◌∷◌, ◌==◌, if◌then◌else◌,
}
use laravel_queue_go.Prelude.Bytes.{Bytes, codes}
use laravel_queue_go.Prelude.Int.{ℤ, pos, negsuc, ltb_ℤ, leb_ℤ}
use laravel_queue_go.Config.{or_text, from_env}
use laravel_queue_go.Config
use laravel_queue_go.Queue.Driver.{Driver}
use laravel_queue_go.Queue.Manager.{
  Manager, ManagedWorker, Store, new_manager, set_connection, register_default, worker,
}
use laravel_queue_go.Queue.RedisDriver
use laravel_queue_go.Queue.RedisDriver.{new_redis_driver}
use laravel_queue_go.Queue.Worker.{Handler, WorkerOptions}

pub record Flags : Type 0 where
  pub queue_name : Bytes
  pub connection : Bytes
  pub sleep : ℤ
  pub retry_after : ℤ
  pub block_for : ℤ
  pub max_jobs : ℤ
  pub max_time : ℤ
  pub concurrency : ℤ
  pub redis_addr : Bytes
  pub redis_pass : Bytes
  pub redis_db : ℤ
  pub prefix : Bytes

-- The values of flags that are not given.
abbrev pub no_flags : Flags
no_flags = record {
  queue_name = [];
  connection = codes "redis";
  sleep = pos 0;
  retry_after = pos 0;
  block_for = pos 0;
  max_jobs = pos 0;
  max_time = pos 0;
  concurrency = pos 0;
  redis_addr = [];
  redis_pass = [];
  redis_db = negsuc 0;
  prefix = [];
}

-- `if flag > 0 { cfg.F = flag }`.
abbrev pub or_positive : ℤ → ℤ → ℤ
or_positive flag old = if ltb_ℤ (pos 0) flag then flag else old

unfoldable pub override : Flags → Config.Config → Config.Config
override f cfg = record cfg {
  default_queue = or_text f.queue_name cfg.default_queue;
  sleep = or_positive f.sleep cfg.sleep;
  retry_after = or_positive f.retry_after cfg.retry_after;
  block_for = or_positive f.block_for cfg.block_for;
  max_jobs = or_positive f.max_jobs cfg.max_jobs;
  max_time = or_positive f.max_time cfg.max_time;
  concurrency = or_positive f.concurrency cfg.concurrency;
  redis_addr = or_text f.redis_addr cfg.redis_addr;
  redis_password = or_text f.redis_pass cfg.redis_password;
  redis_db = if leb_ℤ (pos 0) f.redis_db then f.redis_db else cfg.redis_db;
  redis_prefix = or_text f.prefix cfg.redis_prefix;
}

-- strings.Split at commas: the first part, and the others.
unfoldable pub split : Bytes → Bytes × List Bytes
split [] = ([], [])
split (c ∷ s) =
    let rest = split s in if c == 44 then ([], rest.0 ∷ rest.1) else (c ∷ rest.0, rest.1)

unfoldable pub driver_config : Config.Config → RedisDriver.Config
driver_config cfg = new_redis_driver (record {
  prefix = cfg.redis_prefix;
  no_prefix = false;
  retry_after = cfg.retry_after;
  block_for = cfg.block_for;
  batch_size = cfg.migration_batch_size;
})

unfoldable pub worker_options : Config.Config → WorkerOptions
worker_options cfg = record {
  queue = (split cfg.default_queue).0;
  concurrency = cfg.concurrency;
  max_jobs = cfg.max_jobs;
  max_time = cfg.max_time;
  sleep = cfg.sleep;
  stop_on_empty = false;
}

abbrev pub settings : (Bytes → Option ℤ) → Flags → (Bytes → Bytes) → Config.Config
settings parse_duration f env = override f (from_env parse_duration env)

-- The handler for jobs of every class: it logs the job and succeeds.
abbrev pub log_job : {S : Type 0} → Handler S
log_job r = (none, r)

-- `connect` makes the driver from its settings.
unfoldable pub start :
    {S L : Type 0}
    → (RedisDriver.Config → Driver S)
    → Flags
    → Config.Config
    → ManagedWorker S × Store S L
start connect f cfg =
    let (m, st) = new_manager (connect (driver_config cfg)) in
    (worker (worker_options cfg) (register_default log_job (set_connection f.connection m)), st)
