-- ===== src/Command/Start.antt =====
-- What the worker and the driver that cmd/lqworker/main.go starts have, whatever the settings.
use laravel_queue_go.Prelude.{
  ℕ, zero, suc, ◌≡◌, ◌≢◌, refl, false, some, [], ◌∷◌, ◌==◌, All, arith, Bool-cases, inl, inr,
}
use laravel_queue_go.Prelude.Bytes.{Bytes}
use laravel_queue_go.Prelude.Int.{ℤ, pos, negsuc}
use laravel_queue_go.Config
use laravel_queue_go.Prelude.Dict.{lookup}
use laravel_queue_go.Queue.Driver.{Driver}
use laravel_queue_go.Queue.Job.{Job}
use laravel_queue_go.Queue.Manager.{new_manager, worker, register_default, set_connection}
use laravel_queue_go.Queue.RedisDriver
use laravel_queue_go.Queue.RedisDriver.{
  new_redis_driver, prefix_of, or_default, default_redis_prefix,
}
use laravel_queue_go.Queue.Worker.{Worker, new_worker, resolve_handler, or_else, or_queue, or_sleep}
use laravel_queue_go.Command.{Flags, split, driver_config, worker_options, log_job, start}

abbrev pub NoComma : Bytes → Type 0
NoComma = All (λ c. (c == 44) ≡ false)

split-NoComma : (s : Bytes) → NoComma (split s).0
unfolding split
split-NoComma [] = tt
split-NoComma (c ∷ s) = elim (Bool-cases (c == 44)) [
  | inl h ↦ rw h tt
  | inr h ↦ rw h (h, split-NoComma s)
]

or_queue-NoComma : (q : Bytes) → NoComma q → NoComma (or_queue q)
unfolding or_queue
or_queue-NoComma [] h = (refl, (refl, (refl, (refl, (refl, (refl, (refl, tt)))))))
or_queue-NoComma (c ∷ q) h = h

or_queue-nonempty : (q : Bytes) → or_queue q ≢ []
unfolding or_queue
or_queue-nonempty [] e = cc e
or_queue-nonempty (c ∷ q) e = cc e

or_sleep-nonzero : (z : ℤ) → or_sleep z ≢ pos 0
unfolding or_sleep
or_sleep-nonzero (pos zero) e = ground (arith, e)
or_sleep-nonzero (pos (suc n)) e = ground (arith, e)
or_sleep-nonzero (negsuc n) e = ground (arith, e)

or_default-nonzero : (z : ℤ) (n : ℕ) → or_default z (pos (suc n)) ≢ pos 0
unfolding or_default
or_default-nonzero (pos zero) n e = ground (arith, e)
or_default-nonzero (pos (suc m)) n e = ground (arith, e)
or_default-nonzero (negsuc m) n e = cc e

prefix_of-nonempty : (p : Bytes) → prefix_of false p ≢ []
unfolding prefix_of
prefix_of-nonempty [] e = cc e
prefix_of-nonempty (c ∷ p) e = cc e

module _ {S : Type 0} (L : Type 0) (connect : RedisDriver.Config → Driver S) (f : Flags)
    (cfg : Config.Config) where
  -- The worker that runs.
  abbrev pub started : Worker S
  started = (start {L = L} connect f cfg).0.settings

  -- What the worker is started with: the name of a single queue, a sleep that is not zero, the
  -- handler that logs for jobs of every class, and a driver with the prefix and the times that it needs.
  pub record IsReady : Type 0 where
    pub queue_named : started.options.queue ≢ []
    pub queue_single : NoComma started.options.queue
    pub sleeps : started.options.sleep ≢ pos 0
    pub handles_all : (job : Job) → resolve_handler started job ≡ some log_job
    pub connected : started.driver ≡ connect (driver_config cfg)
    pub prefixed : (driver_config cfg).prefix ≢ []
    pub retries : (driver_config cfg).retry_after ≢ pos 0
    pub migrates : (driver_config cfg).batch_size ≢ pos 0

  -- Whatever the flags and the configuration: the worker that the command starts reads one queue,
  -- whose name is not empty and has no comma, sleeps for a time other than 0, and gives the jobs
  -- of every class to the handler that only logs them; its driver has a prefix, and a time to
  -- retry and a batch size other than 0.
  pub start-IsReady : IsReady
  unfolding resolve_handler or_else lookup start worker_options driver_config new_worker
      new_redis_driver new_manager worker register_default set_connection
  start-IsReady = record {
    queue_named = or_queue-nonempty (split cfg.default_queue).0;
    queue_single = or_queue-NoComma (split cfg.default_queue).0 (split-NoComma cfg.default_queue);
    sleeps = or_sleep-nonzero cfg.sleep;
    handles_all = λ job. refl;
    connected = refl;
    prefixed = prefix_of-nonempty cfg.redis_prefix;
    retries = or_default-nonzero cfg.retry_after 89999999999;
    migrates = or_default-nonzero cfg.migration_batch_size 99;
  }
