-- ===== src/Queue/Sample/Driver.antt =====
-- A driver on a database in memory, with one job waiting.
use laravel_queue_go.Prelude.{[], ◌∷◌, false, if◌then◌else◌}
use laravel_queue_go.Prelude.Bytes.{Bytes, codes, ◌=b◌}
use laravel_queue_go.Prelude.Int.{pos}
use laravel_queue_go.Queue.Driver.{RawJob, Driver, failure}
use laravel_queue_go.Queue.Keys
use laravel_queue_go.Queue.Redis.Memory.{memory}
use laravel_queue_go.Queue.RedisDriver.{
  Config, Oracle, State, Instant, up, reply_lost, redis_driver,
}

abbrev pub sample_config : Config
sample_config = record {
  prefix = codes "app-";
  no_prefix = false;
  retry_after = pos 90000000000;
  block_for = pos 0;
  batch_size = pos 100;
}

abbrev pub at_noon : Instant
at_noon = record { wall = pos 43200000000000; monotonic = pos 5000000000 }

abbrev pub quiet_oracle : Oracle memory
quiet_oracle = record { time = λ n. at_noon; link = λ n. up; others = λ n d. d }

-- Every reply is lost.
abbrev pub lossy_oracle : Oracle memory
lossy_oracle = record { time = λ n. at_noon; link = λ n. reply_lost failure; others = λ n d. d }

abbrev pub sample_queue : Bytes
sample_queue = codes "mail"

-- The queue holds one ready job, whose body is "1".
abbrev pub one_job : memory.Db
one_job =
    (λ j. if Keys.ready sample_config.prefix sample_queue =b j then codes "1" ∷ [] else [], λ j. [])

abbrev pub sample_state : State memory
sample_state = record { db = one_job; last_migrated_at = []; step = 0 }

abbrev pub sample_driver : Driver (State memory)
sample_driver = redis_driver memory quiet_oracle sample_config

abbrev pub sample_job : RawJob
sample_job = record { body = codes "1"; queue = sample_queue; reserved_until = pos 0 }

-- The same job once it is popped, reserved until 43290 seconds.
abbrev pub one_reserved : memory.Db
one_reserved = (
  λ j. [],
  λ j.
      if Keys.reserved sample_config.prefix sample_queue =b j
      then (codes "1", pos 43290) ∷ []
      else [],
)

abbrev pub reserved_state : State memory
reserved_state = record { db = one_reserved; last_migrated_at = []; step = 0 }
