-- ===== src/Middleware/RateLimit.antt =====
-- pkg/middleware/rate_limit.go and throttle.go: counters in Redis around the handler. The script gets
-- the decay in whole seconds. A decay that is negative or out of the range of int64 is not modelled,
-- nor is the rounding of Duration.Seconds, which a decay of more than 97 days can meet.
pub mod Window
pub mod Bounds
pub mod Excess
pub mod Runs
pub mod Throttle
mod Tests
use laravel_queue_go.Prelude.{
  ℕ, ◌+◌, ◌*◌, ◌/◌, Bool, true, false, Option, none, some, ◌++◌, if◌then◌else◌,
}
use laravel_queue_go.Prelude.Bytes.{Bytes, codes}
use laravel_queue_go.Prelude.Int.{ℤ, pos, negsuc, ltb_ℤ, leb_ℤ}
use laravel_queue_go.Middleware.Counter.{CounterStore, is_one}
use laravel_queue_go.Middleware.Lock.{Link, up, refused, reply_lost}
use laravel_queue_go.Middleware.Pipeline.{Action, Middleware}

abbrev pub second : ℕ
second = 1000000000

module _ (C : CounterStore) where
  open C use {Db, add, expire, del}

  unfoldable pub expire_first : ℕ → Bytes → ℕ → ℤ × Db → ℤ × Db
  expire_first t key seconds (count, d) =
      (count, if is_one count then expire t key (t + seconds * second) d else d)

  -- luaRateLimit and luaThrottle.
  unfoldable pub lua_rate_limit : ℕ → Bytes → ℕ → Db → ℤ × Db
  unfolding expire_first
  lua_rate_limit t key seconds d = expire_first t key seconds (add t key (pos 1) d)

  unfoldable pub decr : ℕ → Bytes → Db → Db
  decr t key d = (add t key (negsuc 0) d).1

-- What the middleware see of the world that the job runs in, and of errors: the release error with a
-- delay in nanoseconds, errors.As for one, and the wrapping of an error of Redis.
pub record CounterSite (C : CounterStore) (E W : Type 0) : Type 0 where
  pub time : W → ℕ
  pub link : W → Link E
  pub db : W → C.Db
  pub put_db : C.Db → W → W
  pub release_error : ℤ → E
  pub is_release : E → Bool
  pub wrap : E → E

module _ (C : CounterStore) {E W : Type 0} (site : CounterSite C E W) where
  open C use {Db, del}

  -- A call whose error is ignored.
  unfoldable pub try : Link E → (Db → Db) → W → W
  try (refused e) f s = s
  try up f s = site.put_db (f (site.db s)) s
  try (reply_lost e) f s = site.put_db (f (site.db s)) s

  unfoldable pub run_script :
      Link E → ℤ × Db → (E → W → Option E × W) → (ℤ → W → Option E × W) → W → Option E × W
  run_script up (count, d) failed counted s = counted count (site.put_db d s)
  run_script (refused e) (count, d) failed counted s = failed e s
  run_script (reply_lost e) (count, d) failed counted s = failed e (site.put_db d s)

  unfoldable pub give_back : Bytes → W → W
  unfolding try
  give_back key s = try (site.link s) (decr C (site.time s) key) s

  -- An error of the handler that is no release gives the attempt back.
  unfoldable pub settle_attempt : Bytes → Option E × W → Option E × W
  unfolding give_back
  settle_attempt key (none, s) = (none, s)
  settle_attempt key (some e, s) = (some e, if site.is_release e then s else give_back key s)

  unfoldable pub admit : Bytes → ℤ → ℕ → Action E W → ℤ → W → Option E × W
  unfolding give_back settle_attempt
  admit key max_attempts decay next count s =
      if ltb_ℤ max_attempts count
      then (some (site.release_error (pos decay)), give_back key s)
      else settle_attempt key (next s)

  unfoldable pub rate_limited : Bytes → ℤ → ℕ → Middleware E W
  unfolding run_script admit lua_rate_limit
  rate_limited name max_attempts decay next s =
      let key = codes "laravel_queue_rate_limit:" ++ name in
      run_script (site.link s) (lua_rate_limit C (site.time s) key (decay / second) (site.db s))
        (λ e s'. (some (site.wrap e), s')) (admit key max_attempts decay next) s

  unfoldable pub after_exception : Bytes → ℤ → ℕ → E → ℤ → W → Option E × W
  unfolding try
  after_exception key max_exceptions decay e count s =
      if leb_ℤ max_exceptions count
      then (some (site.release_error (pos decay)), try (site.link s) (del key) s)
      else (some e, s)

  unfoldable pub on_exception : (W → Bytes) → ℤ → ℕ → Option E × W → Option E × W
  unfolding run_script after_exception lua_rate_limit
  on_exception key_of max_exceptions minutes (none, s) = (none, s)
  on_exception key_of max_exceptions minutes (some e, s) =
      let key = codes "laravel_throttle_exceptions:" ++ key_of s in
      let decay = minutes * 60 * second in
      run_script (site.link s) (lua_rate_limit C (site.time s) key (decay / second) (site.db s))
        (λ x s'. (some e, s')) (after_exception key max_exceptions decay e) s

  -- A success does not touch the counter.
  unfoldable pub throttles_exceptions : (W → Bytes) → ℤ → ℕ → Middleware E W
  unfolding on_exception
  throttles_exceptions key_of max_exceptions minutes next s =
      on_exception key_of max_exceptions minutes (next s)
