-- ===== src/Command/Tests.antt =====
-- The command with a flag for the queue and one for the concurrency.
use laravel_queue_go.Prelude.{ℕ, ◌≡◌, refl, Option, none, [], if◌then◌else◌}
use laravel_queue_go.Prelude.Bytes.{Bytes, codes, ◌=b◌}
use laravel_queue_go.Prelude.Int.{ℤ, pos}
use laravel_queue_go.Config.{default_config}
use laravel_queue_go.Queue.Driver.{Driver}
use laravel_queue_go.Queue.Redis.Memory.{memory}
use laravel_queue_go.Queue.RedisDriver
use laravel_queue_go.Queue.RedisDriver.{State}
use laravel_queue_go.Queue.Sample.Driver.{sample_driver}
use laravel_queue_go.Command.{Flags, no_flags, settings}
use laravel_queue_go.Command.Start.{IsReady, start-IsReady}
use laravel_queue_go.Command.Precedence.{AgreesWhereNotGiven, settings-flags}

abbrev sample_flags : Flags
sample_flags = record no_flags { queue_name = codes "mails,default"; concurrency = pos 4 }

abbrev any_driver : RedisDriver.Config → Driver (State memory)
any_driver c = sample_driver

start-IsReady_example : IsReady ℕ any_driver sample_flags default_config
start-IsReady_example = start-IsReady ℕ any_driver sample_flags default_config

abbrev no_durations : Bytes → Option ℤ
no_durations s = none

abbrev nothing_set : Bytes → Bytes
nothing_set name = []

abbrev queue_set : Bytes → Bytes
queue_set name = if name =b codes "QUEUE_NAME" then codes "other" else []

queue_set-AgreesWhereNotGiven : AgreesWhereNotGiven sample_flags nothing_set queue_set
unfolding ◌=b◌
queue_set-AgreesWhereNotGiven = record {
  host = λ h. refl;
  password = λ h. refl;
  db = λ h. refl;
  prefix = λ h. refl;
  queue = λ h. cc h;
  retry_after = λ h. refl;
  block_for = λ h. refl;
  concurrency = λ h. refl;
  max_jobs = λ h. refl;
  max_time = λ h. refl;
  sleep = λ h. refl;
  batch_size = refl;
  failed_table = refl;
  failed_driver = refl;
  dsn = refl;
}

settings-flags_example :
    settings no_durations sample_flags nothing_set ≡ settings no_durations sample_flags queue_set
settings-flags_example =
    settings-flags no_durations sample_flags nothing_set queue_set queue_set-AgreesWhereNotGiven
