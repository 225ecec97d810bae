-- ===== src/Middleware/RateLimit/Throttle.antt =====
-- A row of failing runs under throttle.go.
use laravel_queue_go.Prelude.{
  ℕ, zero, suc, ◌+◌, ◌*◌, ◌/◌, ◌<◌, ◌≡◌, refl, ap, ◌∙◌, sym, true, false, Option, some, List, [],
  ◌∷◌, ◌++◌, arith, leb,
}
use laravel_queue_go.Prelude.Bytes.{Bytes, codes, =b-refl}
use laravel_queue_go.Prelude.Int.{ℤ, pos, ◌+ℤ◌}
use laravel_queue_go.Middleware.Counter.{CounterStore}
use laravel_queue_go.Middleware.Pipeline.{Action}
use laravel_queue_go.Middleware.RateLimit.{
  CounterSite, second, lua_rate_limit, run_script, try, throttles_exceptions, on_exception,
  after_exception,
}
use laravel_queue_go.Middleware.RateLimit.Bounds.{value, value-lua_rate_limit, lua_rate_limit-value}
use laravel_queue_go.Middleware.RateLimit.Runs.{IsConnected, count_of, count_of-put_db}

abbrev pub throttle_key : Bytes → Bytes
throttle_key name = codes "laravel_throttle_exceptions:" ++ name

abbrev pub repeat : {A : Type 0} → ℕ → A → List A
repeat zero a = []
repeat (suc n) a = a ∷ repeat n a

module _ (C : CounterStore) {E W : Type 0} (site : CounterSite C E W) (key_of : W → Bytes)
    (m minutes : ℕ) (e : E) where
  abbrev pub fail : Action E W
  fail s = (some e, s)

  -- The results of a row of failing runs, and the world after it; `m + 1` exceptions are the limit.
  abbrev pub failing_runs : ℕ → W → List (Option E) × W
  failing_runs zero s = ([], s)
  failing_runs (suc n) s =
      let r = throttles_exceptions C site key_of (pos (suc m)) minutes fail s in
      let rest = failing_runs n r.1 in (r.0 ∷ rest.0, rest.1)

  abbrev pub count : W → ℤ
  count s = count_of C site (throttle_key (key_of s)) s

  abbrev counted : W → W
  counted s =
      site.put_db
        (lua_rate_limit C (site.time s) (throttle_key (key_of s)) (minutes * 60 * second / second)
          (site.db s)).1
        s

  abbrev pub release : Option E
  release = some (site.release_error (pos (minutes * 60 * second)))

  module _ (ok : IsConnected C site)
      (same_key : (d : C.Db) (s : W) → key_of (site.put_db d s) ≡ key_of s)
      (positive : 0 < minutes) where
    seconds_positive : 0 < minutes * 60 * second / second
    seconds_positive = omega (arith, positive)

    count-put_db :
        (d : C.Db) (s : W)
        → count (site.put_db d s) ≡ value C (throttle_key (key_of s)) (site.time s) d
    count-put_db d s = rw (same_key d s) (count_of-put_db C site ok (throttle_key (key_of s)) d s)

    count-counted : (s : W) → count (counted s) ≡ count s +ℤ pos 1
    count-counted s =
        count-put_db _ s
        ∙ value-lua_rate_limit C (throttle_key (key_of s)) (site.time s) _ (site.db s)
            seconds_positive

    value-del : (k : Bytes) (t : ℕ) (d : C.Db) → value C k t (C.del k d) ≡ pos 0
    value-del k t d = rw (C.view-del t k d k, =b-refl k) refl

    count-del :
        (s : W) → count (site.put_db (C.del (throttle_key (key_of s)) (site.db s)) s) ≡ pos 0
    count-del s = count-put_db _ s ∙ value-del (throttle_key (key_of s)) (site.time s) (site.db s)

    run :
        (s : W)
        → throttles_exceptions C site key_of (pos (suc m)) minutes fail s
          ≡ after_exception C site
              (throttle_key (key_of s))
              (pos (suc m))
              (minutes * 60 * second)
              e
              (count s +ℤ pos 1)
              (counted s)
    unfolding throttles_exceptions on_exception run_script
    run s =
        rw
          (
            ok.connected s,
            sym (
                lua_rate_limit-value C (throttle_key (key_of s)) (site.time s)
                  (minutes * 60 * second / second) (site.db s)),
          )
          refl

    under_limit :
        (s : W) (j : ℕ)
        → j < m
        → count s +ℤ pos 1 ≡ pos (suc j)
        → throttles_exceptions C site key_of (pos (suc m)) minutes fail s ≡ (some e, counted s)
    unfolding after_exception
    under_limit s j lt h =
        let g : leb (suc m + 0) (suc j + 0) ≡ false = ground arith in rw (run s, h, g) refl

    count-del_counted :
        (s : W)
        → count (site.put_db (C.del (throttle_key (key_of s)) (site.db (counted s))) (counted s))
          ≡ pos 0
    count-del_counted s =
        ap (λ k. count (site.put_db (C.del (throttle_key k) (site.db (counted s))) (counted s)))
          (sym (same_key _ s))
        ∙ count-del (counted s)

    at_limit :
        (s : W)
        → count s +ℤ pos 1 ≡ pos (suc m)
        → let r = throttles_exceptions C site key_of (pos (suc m)) minutes fail s in
          (r.0 ≡ release) × (count r.1 ≡ pos 0)
    unfolding after_exception try
    at_limit s h =
        let g : leb (suc m + 0) (suc m + 0) ≡ true = ground arith in
        rw (run s, h, g, ok.connected (counted s)) (refl, count-del_counted s)

    count_up :
        (s : W) (j : ℕ)
        → count s +ℤ pos 1 ≡ pos (suc j)
        → count (counted s) +ℤ pos 1 ≡ pos (suc (suc j))
    unfolding ◌+ℤ◌
    count_up s j h = rw (count-counted s, h) (ground arith)

    row :
        (n j : ℕ) (s : W)
        → n + j ≡ m
        → count s +ℤ pos 1 ≡ pos (suc j)
        → let r = failing_runs (suc n) s in
          (r.0 ≡ repeat n (some e) ++ release ∷ []) × (count r.1 ≡ pos 0)
    row zero j s eq h =
        let l = at_limit s (h ∙ ap (λ i. pos (suc i)) (let g : j ≡ m = omega (arith, eq) in g)) in
        (ap (λ o. o ∷ []) l.0, l.1)
    row (suc n) j s eq h =
        let u = under_limit s j (omega (arith, eq)) h in
        let next = row n (suc j) (counted s) (omega (arith, eq)) (count_up s j h) in
        rw u (ap (λ os. some e ∷ os) next.0, next.1)

    -- With a Redis that answers, no time passing, a decay of a minute at least and a key
    -- that the counter does not change: of `m + 1` failing runs that start with no exception
    -- counted, all but the last return the handler's error and the last the release error
    -- with the decay as its delay; then no exception is counted.
    pub throttles_exceptions-failing_runs :
        (s : W)
        → count s ≡ pos 0
        → ((failing_runs (suc m) s).0 ≡ repeat m (some e) ++ release ∷ [])
          × (count (failing_runs (suc m) s).1 ≡ pos 0)
    unfolding ◌+ℤ◌
    throttles_exceptions-failing_runs s h = row m 0 s (omega arith) (rw h refl)
