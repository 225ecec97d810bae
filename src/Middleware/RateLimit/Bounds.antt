-- ===== src/Middleware/RateLimit/Bounds.antt =====
-- The bound that the calls of pkg/middleware/rate_limit.go put on the jobs let in.
use laravel_queue_go.Prelude.{
  ℕ, suc, ◌+◌, ◌*◌, ◌≤◌, ◌<◌, ◌≡◌, refl, ap, ◌∙◌, sym, subst, false, Option, none, some, leb, arith,
  Bool-cases, inl, inr,
}
use laravel_queue_go.Prelude.Bytes.{Bytes, =b-refl}
use laravel_queue_go.Prelude.Int.{ℤ, pos, negsuc, ◌+ℤ◌, pos_part, neg_part, ltb_ℤ}
use laravel_queue_go.Middleware.Counter.{
  CounterStore, Entry, add_to, set_deadline, live, value_of, is_one,
}
use laravel_queue_go.Middleware.RateLimit.{second, lua_rate_limit, decr, expire_first}
use laravel_queue_go.Middleware.RateLimit.Window.{
  Window, Step, Steps, Fresh, script, decr_key, let_in, turn_away, lost, take_back, refund, late,
  pass, expired, done, step,
}

-- c ≤ v + l.
AtMost : ℕ → ℤ → ℕ → Type 0
AtMost c v l = c + neg_part v ≤ pos_part v + l

AtMost-up : (c : ℕ) (v : ℤ) (l : ℕ) → AtMost c v l → AtMost (suc c) (v +ℤ pos 1) l
unfolding AtMost ◌+ℤ◌
AtMost-up c (pos n) l h = ground arith
AtMost-up c (negsuc n) l h = ground arith

AtMost-down : (c : ℕ) (v : ℤ) (l : ℕ) → AtMost (suc c) v l → AtMost c (v +ℤ negsuc 0) l
unfolding AtMost ◌+ℤ◌
AtMost-down c (pos n) l h = ground arith
AtMost-down c (negsuc n) l h = ground arith

AtMost-late : (c : ℕ) (v : ℤ) (l : ℕ) → AtMost c v l → AtMost c (v +ℤ negsuc 0) (suc l)
unfolding AtMost ◌+ℤ◌
AtMost-late c (pos n) l h = ground arith
AtMost-late c (negsuc n) l h = ground arith

AtMost-less : (c : ℕ) (v : ℤ) (l : ℕ) → AtMost (suc c) v l → AtMost c v l
unfolding AtMost
AtMost-less c v l h = omega (arith, h)

AtMost_zero : AtMost 0 (pos 0) 0
unfolding AtMost
AtMost_zero = omega arith

AtMost-max : (c m : ℕ) (v : ℤ) (l : ℕ) → AtMost c v l → ltb_ℤ (pos m) v ≡ false → c ≤ m + l
unfolding AtMost
AtMost-max c m v l h e = ground arith

module _ (C : CounterStore) (key : Bytes) where
  abbrev pub value : ℕ → C.Db → ℤ
  value t d = value_of (C.view t d key)

  value-add_to : (e : Option Entry) → value_of (some (add_to (pos 1) e)) ≡ value_of e +ℤ pos 1
  unfolding ◌+ℤ◌
  value-add_to none = refl
  value-add_to (some e) = refl

  value-sub_from :
      (e : Option Entry) → value_of (some (add_to (negsuc 0) e)) ≡ value_of e +ℤ negsuc 0
  unfolding ◌+ℤ◌
  value-sub_from none = refl
  value-sub_from (some e) = refl

  view_add_same :
      (t : ℕ) (n : ℤ) (d : C.Db)
      → C.view t (C.add t key n d).1 key ≡ some (add_to n (C.view t d key))
  view_add_same t n d = C.view-add t key n d key ∙ (rw (=b-refl key) refl)

  pub value-decr : (t : ℕ) (d : C.Db) → value t (decr C t key d) ≡ value t d +ℤ negsuc 0
  unfolding decr
  value-decr t d = rw (view_add_same t (negsuc 0) d) (value-sub_from (C.view t d key))

  live-value :
      (t s : ℕ) (e : Entry)
      → 0 < s
      → value_of (live t (set_deadline (t + s * second) (some e))) ≡ e.value
  live-value t s e h = let g : leb (t + s * second) t ≡ false = ground arith in rw g refl

  value-expire :
      (t s : ℕ) (d : C.Db) (e : Entry)
      → 0 < s
      → C.view t d key ≡ some e
      → value t (C.expire t key (t + s * second) d) ≡ e.value
  value-expire t s d e h v =
      ap value_of (C.view-expire t key (t + s * second) d key)
      ∙ (rw (=b-refl key, v) (live-value t s e h))

  value-expire_first :
      (t s : ℕ) (c : ℤ) (d : C.Db) (e : Entry)
      → 0 < s
      → C.view t d key ≡ some e
      → value t (expire_first C t key s (c, d)).1 ≡ e.value
  unfolding expire_first
  value-expire_first t s c d e h v = elim (Bool-cases (is_one c)) [
    | inl i ↦ rw i (value-expire t s d e h v)
    | inr i ↦ rw (i, v) refl
  ]

  pub value-lua_rate_limit :
      (t s : ℕ) (d : C.Db) → 0 < s → value t (lua_rate_limit C t key s d).1 ≡ value t d +ℤ pos 1
  unfolding lua_rate_limit
  value-lua_rate_limit t s d h =
      value-expire_first t s (C.add t key (pos 1) d).0 (C.add t key (pos 1) d).1 _ h
        (view_add_same t (pos 1) d)
      ∙ value-add_to (C.view t d key)

  pub lua_rate_limit-value :
      (t s : ℕ) (d : C.Db) → (lua_rate_limit C t key s d).0 ≡ value t d +ℤ pos 1
  unfolding lua_rate_limit expire_first
  lua_rate_limit-value t s d = C.add-result t key (pos 1) d ∙ value-add_to (C.view t d key)

  -- The jobs that hold an attempt are counted, less what late calls took off, and those let in are
  -- at most `max` more than these calls.
  record IsBounded (max : ℕ) (w : Window C) : Type 0 where
    counted : AtMost (w.charged + w.over) (value w.time w.db) w.lates
    bounded : w.charged ≤ max + w.lates

module _ (C : CounterStore) (key : Bytes) (max seconds : ℕ) (positive : 0 < seconds) where
  counted_up :
      (w : Window C) (c d : ℕ)
      → d ≡ suc c
      → AtMost c (value C key w.time w.db) w.lates
      → AtMost d (value C key w.time (script C key seconds w).1) w.lates
  counted_up w c d e h =
      rw (e, value-lua_rate_limit C key w.time seconds w.db positive) (AtMost-up c _ w.lates h)

  counted_down :
      (w : Window C) (c d : ℕ)
      → d ≡ suc c
      → AtMost d (value C key w.time w.db) w.lates
      → AtMost c (value C key w.time (decr_key C key w)) w.lates
  counted_down w c d e h =
      rw (value-decr C key w.time w.db) (AtMost-down c _ w.lates (rw (sym e) h))

  counted_late :
      (w : Window C) (c : ℕ)
      → AtMost c (value C key w.time w.db) w.lates
      → AtMost c (value C key w.time (decr_key C key w)) (suc w.lates)
  counted_late w c h =
      subst (λ v. AtMost c v (suc w.lates)) (sym (value-decr C key w.time w.db))
        (AtMost-late c _ w.lates h)

  let_in-bounded :
      (w : Window C)
      → AtMost (w.charged + w.over) (value C key w.time w.db) w.lates
      → ltb_ℤ (pos max) (script C key seconds w).0 ≡ false
      → suc w.charged ≤ max + w.lates
  let_in-bounded w h e =
      let g : suc (w.charged + w.over) ≤ max + w.lates =
        AtMost-max _ max _ w.lates (AtMost-up _ _ w.lates h)
          (ap (ltb_ℤ (pos max)) (sym (lua_rate_limit-value C key w.time seconds w.db)) ∙ e) in
      omega (arith, g)

  Step-IsBounded :
      (u w : Window C) → Step C key max seconds u w → IsBounded C key max u → IsBounded C key max w
  Step-IsBounded _ _ (let_in u e) h = record {
    counted = counted_up u _ _ (omega arith) h.counted;
    bounded = let_in-bounded u h.counted e;
  }
  Step-IsBounded _ _ (turn_away u e) h = record {
    counted = counted_up u _ _ (omega arith) h.counted;
    bounded = h.bounded;
  }
  Step-IsBounded _ _ (lost u) h = record {
    counted = AtMost-less _ _ u.lates (counted_up u _ _ refl h.counted);
    bounded = h.bounded;
  }
  Step-IsBounded _ _ (take_back u n e) h = record {
    counted = counted_down u _ _ (omega (arith, e)) h.counted;
    bounded = h.bounded;
  }
  Step-IsBounded _ _ (refund u n e) h = record {
    counted = counted_down u _ _ (omega (arith, e)) h.counted;
    bounded = omega (arith, e, h.bounded);
  }
  Step-IsBounded _ _ (late u n e) h = record {
    counted = counted_late u _ h.counted;
    bounded = omega (arith, h.bounded);
  }
  Step-IsBounded _ _ (pass u t le e) h = record {
    counted = subst (λ x. AtMost (u.charged + u.over) (value_of x) u.lates) (sym e) h.counted;
    bounded = h.bounded;
  }
  Step-IsBounded _ _ (expired u t le e) h = record {
    counted = subst (λ x. AtMost 0 (value_of x) 0) (sym e) (AtMost_zero);
    bounded = omega arith;
  }

  Steps-IsBounded :
      (u w : Window C) → Steps C key max seconds u w → IsBounded C key max u → IsBounded C key max w
  Steps-IsBounded u _ (done _) h = h
  Steps-IsBounded _ _ (step u v w r s) h = Step-IsBounded v w s (Steps-IsBounded u v r h)

  Fresh-IsBounded : (w : Window C) → Fresh C key w → IsBounded C key max w
  unfolding AtMost
  Fresh-IsBounded w (missing, a, b, c) = record {
    counted = rw (missing, a, b) (omega arith);
    bounded = omega (arith, a);
  }

  -- With a decay of a second at least: from a missing key, however the calls of any number of
  -- jobs are ordered, the jobs that hold an attempt of the key's present life are at most
  -- `max` and one more for each Decr that came from a job of a past life.
  pub charged_bound :
      (u w : Window C) → Fresh C key u → Steps C key max seconds u w → w.charged ≤ max + w.lates
  charged_bound u w f r = (Steps-IsBounded u w r (Fresh-IsBounded u f)).bounded
