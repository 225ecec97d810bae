-- ===== src/Config.antt =====
-- pkg/config/config.go: the settings and their reading from the environment. `env` is os.Getenv, with
-- no bytes for a variable that is not set, and `parse_duration` time.ParseDuration, none for an error.
use laravel_queue_go.Prelude.{Option, none, some, [], ◌∷◌}
use laravel_queue_go.Prelude.Bytes.{Bytes, codes}
use laravel_queue_go.Prelude.Int.{ℤ, pos}
use laravel_queue_go.Strconv.{parse_int}

-- Durations are nanoseconds.
pub record Config : Type 0 where
  pub redis_addr : Bytes
  pub redis_password : Bytes
  pub redis_db : ℤ
  pub redis_prefix : Bytes
  pub default_queue : Bytes
  pub retry_after : ℤ
  pub block_for : ℤ
  pub concurrency : ℤ
  pub max_jobs : ℤ
  pub max_time : ℤ
  pub sleep : ℤ
  pub migration_batch_size : ℤ
  pub failed_jobs_table : Bytes
  pub failed_jobs_driver : Bytes
  pub database_dsn : Bytes

abbrev pub default_config : Config
default_config = record {
  redis_addr = codes "127.0.0.1:6379";
  redis_password = [];
  redis_db = pos 0;
  redis_prefix = codes "laravel-database-";
  default_queue = codes "default";
  retry_after = pos 90000000000;
  block_for = pos 5000000000;
  concurrency = pos 1;
  max_jobs = pos 0;
  max_time = pos 0;
  sleep = pos 3000000000;
  migration_batch_size = pos 100;
  failed_jobs_table = codes "failed_jobs";
  failed_jobs_driver = codes "database";
  database_dsn = [];
}

-- `if v != "" { c.F = v }`.
abbrev pub or_text : Bytes → Bytes → Bytes
or_text [] old = old
or_text (c ∷ v) old = c ∷ v

abbrev pub or_old : {A : Type 0} → Option A → A → A
or_old none old = old
or_old (some a) old = a

-- `if v != "" { if n, err := parse(v); err == nil { c.F = n } }`.
abbrev pub or_parsed : {A : Type 0} → (Bytes → Option A) → Bytes → A → A
or_parsed parse [] old = old
or_parsed parse (c ∷ v) old = or_old (parse (c ∷ v)) old

unfoldable pub from_env : (Bytes → Option ℤ) → (Bytes → Bytes) → Config
from_env parse_duration env =
    let c = default_config in
    record {
      redis_addr = or_text (env (codes "REDIS_HOST")) c.redis_addr;
      redis_password = or_text (env (codes "REDIS_PASSWORD")) c.redis_password;
      redis_db = or_parsed parse_int (env (codes "REDIS_DB")) c.redis_db;
      redis_prefix = or_text (env (codes "REDIS_PREFIX")) c.redis_prefix;
      default_queue = or_text (env (codes "QUEUE_NAME")) c.default_queue;
      retry_after = or_parsed parse_duration (env (codes "QUEUE_RETRY_AFTER")) c.retry_after;
      block_for = or_parsed parse_duration (env (codes "QUEUE_BLOCK_FOR")) c.block_for;
      concurrency = or_parsed parse_int (env (codes "QUEUE_CONCURRENCY")) c.concurrency;
      max_jobs = or_parsed parse_int (env (codes "QUEUE_MAX_JOBS")) c.max_jobs;
      max_time = or_parsed parse_int (env (codes "QUEUE_MAX_TIME")) c.max_time;
      sleep = or_parsed parse_duration (env (codes "QUEUE_SLEEP")) c.sleep;
      migration_batch_size =
          or_parsed parse_int (env (codes "QUEUE_MIGRATION_BATCH_SIZE")) c.migration_batch_size;
      failed_jobs_table = or_text (env (codes "QUEUE_FAILED_TABLE")) c.failed_jobs_table;
      failed_jobs_driver = or_text (env (codes "QUEUE_FAILED_DRIVER")) c.failed_jobs_driver;
      database_dsn = or_text (env (codes "DATABASE_URL")) c.database_dsn;
    }
