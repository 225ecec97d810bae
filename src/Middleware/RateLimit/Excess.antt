-- ===== src/Middleware/RateLimit/Excess.antt =====
-- What a Decr that comes after the key of pkg/middleware/rate_limit.go has gone does to the limit.
use laravel_queue_go.Prelude.{ℕ, zero, suc, ◌≤◌, ◌<◌, ◌≡◌, refl, ap, false, arith}
use laravel_queue_go.Prelude.Bytes.{Bytes}
use laravel_queue_go.Prelude.Int.{pos, ◌+ℤ◌, ltb_ℤ}
use laravel_queue_go.Middleware.Counter.{CounterStore}
use laravel_queue_go.Middleware.RateLimit.Window.{
  Window, Steps, Fresh, script, decr_key, let_in, late, done, step,
}
use laravel_queue_go.Middleware.RateLimit.Bounds.{
  value, value-lua_rate_limit, lua_rate_limit-value, value-decr,
}

module _ (C : CounterStore) (key : Bytes) (max seconds : ℕ) (positive : 0 < seconds) where
  -- `n` jobs were let in, and the script returns `n` to the next.
  record LetIn (u : Window C) (n : ℕ) : Type 0 where
    to : Window C
    steps : Steps C key max seconds u to
    charged_all : to.charged ≡ n
    next_count : value C key to.time to.db +ℤ pos 1 ≡ pos n

  pass_one : (u : Window C) (n : ℕ) → n ≤ max → LetIn u n → LetIn u (suc n)
  unfolding ◌+ℤ◌
  pass_one u n le h =
      let w = h.to in
      let passes : ltb_ℤ (pos max) (script C key seconds w).0 ≡ false =
        rw (lua_rate_limit-value C key w.time seconds w.db, h.next_count) (ground arith) in
      record {
        to = record w { db = (script C key seconds w).1; charged = suc w.charged };
        steps = step u w _ h.steps (let_in w passes);
        charged_all = ap (λ c. suc c) h.charged_all;
        next_count =
            rw (value-lua_rate_limit C key w.time seconds w.db positive, h.next_count)
              (ground arith);
      }

  pass_all : (u : Window C) (n : ℕ) → n ≤ suc max → LetIn u 0 → LetIn u n
  pass_all u zero le h = h
  pass_all u (suc n) le h = pass_one u n (omega (arith, le)) (pass_all u n (omega (arith, le)) h)

  after_late : (u : Window C) (n : ℕ) → Fresh C key u → u.stale ≡ suc n → LetIn u 0
  unfolding ◌+ℤ◌
  after_late u n (missing, none_in, _, _) e = record {
    to = record u { db = decr_key C key u; stale = n; lates = suc u.lates };
    steps = step u u _ (done u) (late u n e);
    charged_all = none_in;
    next_count = rw (value-decr C key u.time u.db, missing) refl;
  }

  -- With a decay of a second at least: from a missing key, when a job of a past life of the
  -- key may still call Decr, one more job than `max` can be let in, with no attempt given
  -- back.
  pub one_over_max :
      (u : Window C) (n : ℕ)
      → Fresh C key u
      → u.stale ≡ suc n
      → (w : Window C) × Steps C key max seconds u w × (w.charged ≡ suc max)
  one_over_max u n f e =
      let h = pass_all u (suc max) (omega arith) (after_late u n f e) in
      (h.to, h.steps, h.charged_all)
