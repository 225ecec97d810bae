-- ===== src/Middleware/Lock/Overlap.antt =====
-- Any number of jobs that share a lock: lockMiddleware of pkg/middleware/unique.go around each.
use laravel_queue_go.Prelude.{
  ℕ, suc, ◌+◌, ◌≤◌, ◌≡◌, ◌∙◌, refl, Bool, true, false, leb, if◌then◌else◌, arith, Bool-cases, inl,
  inr,
}
use laravel_queue_go.Prelude.Bytes.{Bytes, =b-refl}
use laravel_queue_go.Middleware.Lock.{LockStore}

module _ (L : LockStore) where
  -- `inside` counts the handlers between their SETNX and their Del.
  pub record Shared : Type 0 where
    pub db : L.Db
    pub time : ℕ
    pub inside : ℕ

  module _ (key : Bytes) (ttl : ℕ) where
    -- A SETNX or a Del that is not seen to succeed may have been done; an `unseen` SETNX is one whose
    -- reply is lost.
    pub data Step : Shared → Shared → Type 0 where
      enter :
          (s : Shared)
          → (L.set_nx s.time key ttl s.db).0 ≡ true
          → Step s (record s { db = (L.set_nx s.time key ttl s.db).1; inside = suc s.inside })
      turned_away unseen :
          (s : Shared) → Step s (record s { db = (L.set_nx s.time key ttl s.db).1 })
      leave :
          (s : Shared) (n : ℕ)
          → s.inside ≡ suc n
          → Step s (record s { db = L.del key s.db; inside = n })
      leave_locked : (s : Shared) (n : ℕ) → s.inside ≡ suc n → Step s (record s { inside = n })
      pass : (s : Shared) (n : ℕ) → Step s (record s { time = s.time + n })

    pub data Reachable (s : Shared) : Shared → Type 0 where
      initial : Reachable s s
      step : {t u : Shared} → Reachable s t → Step t u → Reachable s u

  -- One handler at most, and while there is one the key stays.
  record IsExclusive (key : Bytes) (s : Shared) : Type 0 where
    pub at_most_one : s.inside ≤ 1
    pub kept : (u : ℕ) → s.time ≤ u → s.inside ≡ 1 → L.holds u key s.db ≡ true

  module _ (key : Bytes) where
    -- SETNX without a ttl leaves the key in place for good.
    kept-set_nx :
        (t u : ℕ) (d : L.Db)
        → t ≤ u
        → (L.holds t key d ≡ true → L.holds u key d ≡ true)
        → L.holds u key (L.set_nx t key 0 d).1 ≡ true
    kept-set_nx t u d le h = elim (Bool-cases (L.holds t key d)) [
      | inl there ↦ rw (L.holds-set_nx t u key key 0 d le, there) (h there)
      | inr free ↦ rw (L.holds-set_nx t u key key 0 d le, free, =b-refl key) refl
    ]

    was_free : (t : ℕ) (d : L.Db) → (L.set_nx t key 0 d).0 ≡ true → L.holds t key d ≡ false
    was_free t d h = elim (Bool-cases (L.holds t key d)) [
      | inl there ↦ absurd (impossible (L.set_nx-result t key 0 d) there h)
      | inr free ↦ free
    ]
      where
        impossible : {b c : Bool} → b ≡ (if c then false else true) → c ≡ true → b ≡ true → ⊥
        impossible {c = true} e f g = cc
        impossible {c = false} e f g = cc

    -- Where SETNX succeeds no handler is inside.
    nobody :
        (s : Shared) → (L.set_nx s.time key 0 s.db).0 ≡ true → IsExclusive key s → suc s.inside ≤ 1
    nobody s e v = elim (Bool-cases (leb 1 s.inside)) [
      | inl some_one ↦
          let one : s.inside ≡ 1 = ground (arith, v.at_most_one) in
          absurd (cc (v.kept s.time (omega arith) one, was_free s.time s.db e))
      | inr none_in ↦ ground arith
    ]

    step-IsExclusive : {s t : Shared} → Step key 0 s t → IsExclusive key s → IsExclusive key t
    step-IsExclusive (enter s e) v = record {
      at_most_one = nobody s e v;
      kept = λ u le one. kept-set_nx s.time u s.db le λ there. cc (there, was_free s.time s.db e);
    }
    step-IsExclusive (turned_away s) v = record {
      at_most_one = v.at_most_one;
      kept = λ u le one. kept-set_nx s.time u s.db le λ there. v.kept u le one;
    }
    step-IsExclusive (unseen s) v = record {
      at_most_one = v.at_most_one;
      kept = λ u le one. kept-set_nx s.time u s.db le λ there. v.kept u le one;
    }
    step-IsExclusive (leave s n e) v = record {
      at_most_one = omega (arith, v.at_most_one, e);
      kept = λ u le one. absurd (omega (arith, v.at_most_one, e, one));
    }
    step-IsExclusive (leave_locked s n e) v = record {
      at_most_one = omega (arith, v.at_most_one, e);
      kept = λ u le one. absurd (omega (arith, v.at_most_one, e, one));
    }
    step-IsExclusive (pass s n) v = record {
      at_most_one = v.at_most_one;
      kept = λ u le one. v.kept u (omega (arith, le)) one;
    }

    Reachable-IsExclusive :
        {s t : Shared} → Reachable key 0 s t → IsExclusive key s → IsExclusive key t
    Reachable-IsExclusive initial v = v
    Reachable-IsExclusive (step r q) v = step-IsExclusive q (Reachable-IsExclusive r v)

  -- With a lock that does not expire at most one handler is between its SETNX and its Del, in every
  -- state reached from one with no handler inside, whoever asks for the lock, gives it back or fails
  -- to in between.
  pub overlap_free :
      (key : Bytes) (s t : Shared) → s.inside ≡ 0 → Reachable key 0 s t → t.inside ≤ 1
  overlap_free key s t empty r =
      (Reachable-IsExclusive key r (record {
        at_most_one = omega (arith, empty);
        kept = λ u le one. absurd (omega (arith, empty, one));
      })).at_most_one

  -- With a lock that expires, however late, two handlers can be inside: from every state with no
  -- handler inside and the key not there, a state with two of them is reached.
  pub overlap_after_expiry :
      (key : Bytes) (n : ℕ) (s : Shared)
      → s.inside ≡ 0
      → L.holds s.time key s.db ≡ false
      → (t : Shared) × (t.inside ≡ 2) × Reachable key (suc n) s t
  overlap_after_expiry key n s empty free =
      let taken : Bool × L.Db = L.set_nx s.time key (suc n) s.db in
      let first : Shared = record s { db = taken.1; inside = suc s.inside } in
      let expired : Shared = record first { time = s.time + suc n } in
      let gone : L.holds expired.time key expired.db ≡ false =
        rw
          (
            L.holds-set_nx s.time (s.time + suc n) key key (suc n) s.db (omega arith),
            free,
            =b-refl key,
          )
          (ground arith) in
      (
        record expired {
          db = (L.set_nx expired.time key (suc n) expired.db).1;
          inside = suc expired.inside;
        },
        omega (arith, empty),
        step (step (step initial (enter s (succeeds s.time s.db free))) (pass first (suc n)))
            (enter expired (succeeds expired.time expired.db gone)),
      )
    where
      succeeds : (t : ℕ) (d : L.Db) → L.holds t key d ≡ false → (L.set_nx t key (suc n) d).0 ≡ true
      succeeds t d h = L.set_nx-result t key (suc n) d ∙ rw h refl
