-- ===== src/Middleware/RateLimit/Tests.antt =====
-- A limit of two, and a throttle of two exceptions, on a store in memory.
use laravel_queue_go.Prelude.{
  suc, ◌+◌, ◌*◌, ◌≤◌, ◌≡◌, refl, none, some, [], ◌∷◌, ◌++◌, arith, false,
}
use laravel_queue_go.Prelude.Bytes.{Bytes, codes}
use laravel_queue_go.Prelude.Int.{ℤ, pos, ◌+ℤ◌}
use laravel_queue_go.Middleware.Counter.Memory.{Counters, counters}
use laravel_queue_go.Middleware.Lock.{up}
use laravel_queue_go.Middleware.Pipeline.{Action}
use laravel_queue_go.Middleware.RateLimit.{
  CounterSite, second, lua_rate_limit, rate_limited, expire_first,
}
use laravel_queue_go.Middleware.RateLimit.Window.{Window, Steps, script, let_in, done, step}
use laravel_queue_go.Middleware.RateLimit.Bounds.{charged_bound}
use laravel_queue_go.Middleware.RateLimit.Excess.{one_over_max}
use laravel_queue_go.Middleware.RateLimit.Runs.{
  IsConnected, count_of, charged_state, result_of, count_after, rate_limited-count,
}
use laravel_queue_go.Middleware.RateLimit.Throttle.{
  count, failing_runs, release, repeat, throttles_exceptions-failing_runs,
}

abbrev no_counters : Counters
no_counters j = none

abbrev limit_key : Bytes
limit_key = codes "laravel_queue_rate_limit:mail"

-- One job of a past life of the key is still running.
abbrev quiet : Window counters
quiet = record { time = 5; db = no_counters; charged = 0; over = 0; lates = 0; stale = 1 }

abbrev one_running : Window counters
one_running = record quiet { db = (script counters limit_key 60 quiet).1; charged = 1 }

one_running-Steps : Steps counters limit_key 2 60 quiet one_running
unfolding lua_rate_limit expire_first ◌+ℤ◌
one_running-Steps = step quiet quiet one_running (done quiet) (let_in quiet refl)

charged_bound_example : one_running.charged ≤ 2 + one_running.lates
charged_bound_example =
    charged_bound counters limit_key 2 60 (omega arith) quiet one_running (refl, refl, refl, refl)
      one_running-Steps

one_over_max_example :
    (w : Window counters) × Steps counters limit_key 2 60 quiet w × (w.charged ≡ suc 2)
one_over_max_example =
    one_over_max counters limit_key 2 60 (omega arith) quiet 0 (refl, refl, refl, refl) refl

-- The world is the counters alone; errors are numbers, of which no one is a release.
abbrev sample_site : CounterSite counters ℤ Counters
sample_site = record {
  time = λ s. 5;
  link = λ s. up;
  db = λ s. s;
  put_db = λ d s. d;
  release_error = λ z. z;
  is_release = λ e. false;
  wrap = λ e. e;
}

sample_site-IsConnected : IsConnected counters sample_site
sample_site-IsConnected = record {
  connected = λ s. refl;
  db_put = λ d s. refl;
  time_put = λ d s. refl;
}

abbrev idle : Action ℤ Counters
idle s = (none, s)

rate_limited-count_example :
    let r =
      rate_limited counters sample_site (codes "mail") (pos 2) (60 * second) idle no_counters in
    let o = (idle (charged_state counters sample_site limit_key (60 * second) no_counters)).0 in
    (r.0
      ≡ result_of counters sample_site
          (pos 2)
          (60 * second)
          (count_of counters sample_site limit_key no_counters)
          o)
    × (count_of counters sample_site limit_key r.1
        ≡ count_after counters sample_site limit_key
            (pos 2)
            (count_of counters sample_site limit_key no_counters)
            o)
rate_limited-count_example =
    rate_limited-count counters sample_site sample_site-IsConnected (codes "mail") (pos 2)
      (60 * second) idle no_counters (omega arith) (λ s. refl)

abbrev one_key : Counters → Bytes
one_key s = codes "mail"

throttles_exceptions-failing_runs_example :
    ((failing_runs counters sample_site one_key 1 10 (pos 7) 2 no_counters).0
      ≡ repeat 1 (some (pos 7)) ++ release counters sample_site one_key 1 10 (pos 7) ∷ [])
    × (count counters sample_site one_key 1 10
          (pos 7)
          (failing_runs counters sample_site one_key 1 10 (pos 7) 2 no_counters).1
        ≡ pos 0)
throttles_exceptions-failing_runs_example =
    throttles_exceptions-failing_runs counters sample_site one_key 1 10 (pos 7)
      sample_site-IsConnected (λ d s. refl) (omega arith) no_counters refl
