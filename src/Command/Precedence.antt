-- ===== src/Command/Precedence.antt =====
-- Flags come before the environment.
use laravel_queue_go.Prelude.{◌≡◌, refl, ap, Bool, true, false, Option, [], ◌∷◌, if◌then◌else◌}
use laravel_queue_go.Prelude.Bytes.{Bytes, codes}
use laravel_queue_go.Prelude.Int.{ℤ, pos, ltb_ℤ, leb_ℤ}
use laravel_queue_go.Strconv.{parse_int}
use laravel_queue_go.Config.{or_text, or_parsed, from_env}
use laravel_queue_go.Command.{Flags, override, or_positive, settings}

-- Two environments have the same value for every variable whose flag is not given.
pub record AgreesWhereNotGiven (f : Flags) (env env' : Bytes → Bytes) : Type 0 where
  pub host : f.redis_addr ≡ [] → env (codes "REDIS_HOST") ≡ env' (codes "REDIS_HOST")
  pub password : f.redis_pass ≡ [] → env (codes "REDIS_PASSWORD") ≡ env' (codes "REDIS_PASSWORD")
  pub db : leb_ℤ (pos 0) f.redis_db ≡ false → env (codes "REDIS_DB") ≡ env' (codes "REDIS_DB")
  pub prefix : f.prefix ≡ [] → env (codes "REDIS_PREFIX") ≡ env' (codes "REDIS_PREFIX")
  pub queue : f.queue_name ≡ [] → env (codes "QUEUE_NAME") ≡ env' (codes "QUEUE_NAME")
  pub retry_after :
      ltb_ℤ (pos 0) f.retry_after ≡ false
      → env (codes "QUEUE_RETRY_AFTER") ≡ env' (codes "QUEUE_RETRY_AFTER")
  pub block_for :
      ltb_ℤ (pos 0) f.block_for ≡ false
      → env (codes "QUEUE_BLOCK_FOR") ≡ env' (codes "QUEUE_BLOCK_FOR")
  pub concurrency :
      ltb_ℤ (pos 0) f.concurrency ≡ false
      → env (codes "QUEUE_CONCURRENCY") ≡ env' (codes "QUEUE_CONCURRENCY")
  pub max_jobs :
      ltb_ℤ (pos 0) f.max_jobs ≡ false
      → env (codes "QUEUE_MAX_JOBS") ≡ env' (codes "QUEUE_MAX_JOBS")
  pub max_time :
      ltb_ℤ (pos 0) f.max_time ≡ false
      → env (codes "QUEUE_MAX_TIME") ≡ env' (codes "QUEUE_MAX_TIME")
  pub sleep : ltb_ℤ (pos 0) f.sleep ≡ false → env (codes "QUEUE_SLEEP") ≡ env' (codes "QUEUE_SLEEP")
  pub batch_size :
      env (codes "QUEUE_MIGRATION_BATCH_SIZE") ≡ env' (codes "QUEUE_MIGRATION_BATCH_SIZE")
  pub failed_table : env (codes "QUEUE_FAILED_TABLE") ≡ env' (codes "QUEUE_FAILED_TABLE")
  pub failed_driver : env (codes "QUEUE_FAILED_DRIVER") ≡ env' (codes "QUEUE_FAILED_DRIVER")
  pub dsn : env (codes "DATABASE_URL") ≡ env' (codes "DATABASE_URL")

text_same :
    (flag v w d : Bytes)
    → (flag ≡ [] → v ≡ w)
    → or_text flag (or_text v d) ≡ or_text flag (or_text w d)
text_same [] v w d h = ap (λ x. or_text x d) (h refl)
text_same (c ∷ flag) v w d h = refl

chosen_same :
    (given : Bool) (a : ℤ) (parse : Bytes → Option ℤ) (v w : Bytes) (d : ℤ)
    → (given ≡ false → v ≡ w)
    → (if given then a else or_parsed parse v d) ≡ (if given then a else or_parsed parse w d)
chosen_same true a parse v w d h = refl
chosen_same false a parse v w d h = ap (λ x. or_parsed parse x d) (h refl)

positive_same :
    (flag : ℤ) (parse : Bytes → Option ℤ) (v w : Bytes) (d : ℤ)
    → (ltb_ℤ (pos 0) flag ≡ false → v ≡ w)
    → or_positive flag (or_parsed parse v d) ≡ or_positive flag (or_parsed parse w d)
positive_same flag parse v w d h = chosen_same (ltb_ℤ (pos 0) flag) flag parse v w d h

-- The settings that the command runs with do not depend on the variable of a flag that is given (one
-- that is not empty, above 0, or for the database not below 0), whatever text it holds.
pub settings-flags :
    (parse_duration : Bytes → Option ℤ) (f : Flags) (env env' : Bytes → Bytes)
    → AgreesWhereNotGiven f env env'
    → settings parse_duration f env ≡ settings parse_duration f env'
unfolding override from_env
settings-flags parse_duration f env env' a =
    rw
      (
        text_same f.redis_addr _ _ _ a.host,
        text_same f.redis_pass _ _ _ a.password,
        chosen_same (leb_ℤ (pos 0) f.redis_db) f.redis_db parse_int _ _ _ a.db,
        text_same f.prefix _ _ _ a.prefix,
        text_same f.queue_name _ _ _ a.queue,
        positive_same f.retry_after parse_duration _ _ _ a.retry_after,
        positive_same f.block_for parse_duration _ _ _ a.block_for,
        positive_same f.concurrency parse_int _ _ _ a.concurrency,
        positive_same f.max_jobs parse_int _ _ _ a.max_jobs,
        positive_same f.max_time parse_int _ _ _ a.max_time,
        positive_same f.sleep parse_duration _ _ _ a.sleep,
        a.batch_size,
        a.failed_table,
        a.failed_driver,
        a.dsn,
      )
      refl
