-- ===== src/Middleware/RateLimit/Runs.antt =====
-- One run of rate_limit.go, and a row of failing runs of throttle.go.
use laravel_queue_go.Prelude.{
  ℕ, zero, suc, ◌/◌, ◌<◌, ◌≡◌, refl, ◌∙◌, sym, Bool, true, Option, none, some, ◌++◌, arith,
  if◌then◌else◌, Bool-cases, inl, inr,
}
use laravel_queue_go.Prelude.Bytes.{Bytes, codes}
use laravel_queue_go.Prelude.Int.{ℤ, pos, negsuc, ◌+ℤ◌, ltb_ℤ}
use laravel_queue_go.Middleware.Counter.{CounterStore}
use laravel_queue_go.Middleware.Lock.{up}
use laravel_queue_go.Middleware.Pipeline.{Action}
use laravel_queue_go.Middleware.RateLimit.{
  CounterSite, second, lua_rate_limit, rate_limited, run_script, admit, settle_attempt, give_back,
  try,
}
use laravel_queue_go.Middleware.RateLimit.Bounds.{
  value, value-lua_rate_limit, lua_rate_limit-value, value-decr,
}

add_sub : (v : ℤ) → (v +ℤ pos 1) +ℤ negsuc 0 ≡ v
unfolding ◌+ℤ◌
add_sub (pos n) = ground arith
add_sub (negsuc zero) = refl
add_sub (negsuc (suc n)) = ground arith

-- A lawful site whose Redis always answers.
pub record IsConnected (C : CounterStore) {E W : Type 0} (site : CounterSite C E W) : Type 0 where
  pub connected : (s : W) → site.link s ≡ up
  pub db_put : (d : C.Db) (s : W) → site.db (site.put_db d s) ≡ d
  pub time_put : (d : C.Db) (s : W) → site.time (site.put_db d s) ≡ site.time s

module _ (C : CounterStore) {E W : Type 0} (site : CounterSite C E W) (key : Bytes) where
  -- The number under the key as a job finds it.
  abbrev pub count_of : W → ℤ
  count_of s = value C key (site.time s) (site.db s)

  -- Whether a result keeps its attempt: a success and a release do.
  abbrev pub keeps : Option E → Bool
  keeps none = true
  keeps (some e) = site.is_release e

  abbrev pub Untouched : Action E W → Type 0
  Untouched next = (s : W) → count_of (next s).1 ≡ count_of s

module _ (C : CounterStore) {E W : Type 0} (site : CounterSite C E W) where
  -- The world after the script.
  abbrev pub charged_state : Bytes → ℕ → W → W
  charged_state key decay s =
      site.put_db (lua_rate_limit C (site.time s) key (decay / second) (site.db s)).1 s

  -- What a run leaves, for the count that it found.
  abbrev pub count_after : Bytes → ℤ → ℤ → Option E → ℤ
  count_after key m v o =
      if ltb_ℤ m (v +ℤ pos 1) then v else if keeps C site key o then v +ℤ pos 1 else v

  abbrev pub result_of : ℤ → ℕ → ℤ → Option E → Option E
  result_of m decay v o = if ltb_ℤ m (v +ℤ pos 1) then some (site.release_error (pos decay)) else o

module _ (C : CounterStore) {E W : Type 0} (site : CounterSite C E W)
    (ok : IsConnected C site) where
  pub count_of-put_db :
      (key : Bytes) (d : C.Db) (s : W)
      → count_of C site key (site.put_db d s) ≡ value C key (site.time s) d
  count_of-put_db key d s = rw (ok.db_put d s, ok.time_put d s) refl

  count_of-give_back :
      (key : Bytes) (s : W)
      → count_of C site key (give_back C site key s) ≡ count_of C site key s +ℤ negsuc 0
  unfolding give_back try
  count_of-give_back key s =
      rw (ok.connected s) (count_of-put_db key _ s ∙ value-decr C key (site.time s) (site.db s))

  count_of-settle_attempt :
      (key : Bytes) (o : Option E) (s : W)
      → count_of C site key (settle_attempt C site key (o, s)).1
        ≡ (if keeps C site key o then count_of C site key s else count_of C site key s +ℤ negsuc 0)
  unfolding settle_attempt
  count_of-settle_attempt key none s = refl
  count_of-settle_attempt key (some e) s = elim (Bool-cases (site.is_release e)) [
    | inl h ↦ rw h refl
    | inr h ↦ rw h (count_of-give_back key s)
  ]

  settle_attempt-result : (key : Bytes) (r : Option E × W) → (settle_attempt C site key r).0 ≡ r.0
  unfolding settle_attempt
  settle_attempt-result key (none, s) = refl
  settle_attempt-result key (some e, s) = refl

  rate_limited-admit :
      (name : Bytes) (m : ℤ) (decay : ℕ) (next : Action E W) (s : W)
      → rate_limited C site name m decay next s
        ≡ admit C site
            (codes "laravel_queue_rate_limit:" ++ name)
            m
            decay
            next
            (count_of C site (codes "laravel_queue_rate_limit:" ++ name) s +ℤ pos 1)
            (charged_state C site (codes "laravel_queue_rate_limit:" ++ name) decay s)
  unfolding rate_limited run_script
  rate_limited-admit name m decay next s =
      rw
        (
          ok.connected s,
          sym (
              lua_rate_limit-value C (codes "laravel_queue_rate_limit:" ++ name) (site.time s)
                (decay / second) (site.db s)),
        )
        refl

  module _ (key : Bytes) (decay : ℕ) (positive : 0 < decay / second) (next : Action E W)
      (untouched : Untouched C site key next) (s : W) where
    abbrev v : ℤ
    v = count_of C site key s

    abbrev s1 : W
    s1 = charged_state C site key decay s

    count_of-charged_state : count_of C site key s1 ≡ v +ℤ pos 1
    count_of-charged_state =
        count_of-put_db key _ s
        ∙ value-lua_rate_limit C key (site.time s) (decay / second) (site.db s) positive

    next_count : count_of C site key (next s1).1 ≡ v +ℤ pos 1
    next_count = untouched s1 ∙ count_of-charged_state

    keeps_all :
        (o : Option E)
        → (if keeps C site key o then v +ℤ pos 1 else (v +ℤ pos 1) +ℤ negsuc 0)
          ≡ (if keeps C site key o then v +ℤ pos 1 else v)
    keeps_all o = rw (add_sub v) refl

    admit-count :
        (m : ℤ)
        → ((admit C site key m decay next (v +ℤ pos 1) s1).0
            ≡ result_of C site m decay v (next s1).0)
          × (count_of C site key (admit C site key m decay next (v +ℤ pos 1) s1).1
              ≡ count_after C site key m v (next s1).0)
    unfolding admit
    admit-count m = elim (Bool-cases (ltb_ℤ m (v +ℤ pos 1))) [
      | inl h ↦ rw h (refl, (count_of-give_back key s1 ∙ (rw count_of-charged_state (add_sub v))))
      | inr h ↦ rw h (
        settle_attempt-result key (next s1),
        (count_of-settle_attempt key (next s1).0 (next s1).1
            ∙ (rw next_count (keeps_all (next s1).0))),
      )
    ]

  -- With a Redis that answers, a decay of a second at least and a handler that leaves the key alone:
  -- a job that finds `m` attempts taken or more gets the release error with the decay as its delay,
  -- whatever its handler is, and the count stays; another gets the handler's result, and the count
  -- is one more when this is a success or a release, and the same after another error.
  pub rate_limited-count :
      (name : Bytes) (m : ℤ) (decay : ℕ) (next : Action E W) (s : W)
      → 0 < decay / second
      → Untouched C site (codes "laravel_queue_rate_limit:" ++ name) next
      → let key = codes "laravel_queue_rate_limit:" ++ name in
        let r = rate_limited C site name m decay next s in
        let o = (next (charged_state C site key decay s)).0 in
        (r.0 ≡ result_of C site m decay (count_of C site key s) o)
        × (count_of C site key r.1 ≡ count_after C site key m (count_of C site key s) o)
  rate_limited-count name m decay next s positive u =
      rw (rate_limited-admit name m decay next s) (admit-count _ decay positive next u s m)
