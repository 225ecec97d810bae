-- ===== src/Middleware/RateLimit/Window.antt =====
-- What the calls of pkg/middleware/rate_limit.go under one key do to its counter, whatever the order
-- in which the jobs of several workers make them.
use laravel_queue_go.Prelude.{ℕ, suc, ◌+◌, ◌≤◌, ◌≡◌, true, false, none}
use laravel_queue_go.Prelude.Bytes.{Bytes}
use laravel_queue_go.Prelude.Int.{ℤ, pos, ltb_ℤ}
use laravel_queue_go.Middleware.Counter.{CounterStore}
use laravel_queue_go.Middleware.RateLimit.{lua_rate_limit, decr}

-- The store, and who holds an attempt of the key's present life: the jobs let in (`charged`) and
-- those refused whose Decr is to come (`over`). `stale` are those of past lives that may still call
-- Decr, and `lates` counts these calls since the key came to life.
pub record Window (C : CounterStore) : Type 0 where
  pub time : ℕ
  pub db : C.Db
  pub charged : ℕ
  pub over : ℕ
  pub lates : ℕ
  pub stale : ℕ

abbrev pub script : (C : CounterStore) → Bytes → ℕ → Window C → ℤ × C.Db
script C key seconds w = lua_rate_limit C w.time key seconds w.db

abbrev pub decr_key : (C : CounterStore) → Bytes → Window C → C.Db
decr_key C key w = decr C w.time key w.db

-- `lost` is a script that ran and whose reply did not arrive; `refund` the Decr after an error of
-- the handler; `expired` a time at which the key is gone.
pub data Step (C : CounterStore) (key : Bytes) (max seconds : ℕ)
    : Window C → Window C → Type 0 where
  let_in :
      (w : Window C)
      → ltb_ℤ (pos max) (script C key seconds w).0 ≡ false
      → Step C key max seconds w
          (record w { db = (script C key seconds w).1; charged = suc w.charged })
  turn_away :
      (w : Window C)
      → ltb_ℤ (pos max) (script C key seconds w).0 ≡ true
      → Step C key max seconds w (record w { db = (script C key seconds w).1; over = suc w.over })
  lost : (w : Window C) → Step C key max seconds w (record w { db = (script C key seconds w).1 })
  take_back :
      (w : Window C) (n : ℕ)
      → w.over ≡ suc n
      → Step C key max seconds w (record w { db = decr_key C key w; over = n })
  refund :
      (w : Window C) (n : ℕ)
      → w.charged ≡ suc n
      → Step C key max seconds w (record w { db = decr_key C key w; charged = n })
  late :
      (w : Window C) (n : ℕ)
      → w.stale ≡ suc n
      → Step C key max seconds w
          (record w { db = decr_key C key w; stale = n; lates = suc w.lates })
  pass :
      (w : Window C) (t : ℕ)
      → w.time ≤ t
      → C.view t w.db key ≡ C.view w.time w.db key
      → Step C key max seconds w (record w { time = t })
  expired :
      (w : Window C) (t : ℕ)
      → w.time ≤ t
      → C.view t w.db key ≡ none
      → Step C key max seconds w (record w {
        time = t;
        charged = 0;
        over = 0;
        lates = 0;
        stale = w.stale + w.charged + w.over;
      })

pub data Steps (C : CounterStore) (key : Bytes) (max seconds : ℕ)
    : Window C → Window C → Type 0 where
  done : (w : Window C) → Steps C key max seconds w w
  step :
      (u v w : Window C)
      → Steps C key max seconds u v
      → Step C key max seconds v w
      → Steps C key max seconds u w

-- No job has an attempt and the key is missing.
abbrev pub Fresh : (C : CounterStore) → Bytes → Window C → Type 0
Fresh C key w = (C.view w.time w.db key ≡ none) × (w.charged ≡ 0) × (w.over ≡ 0) × (w.lates ≡ 0)
