-- ===== src/Middleware/Lock/Memory.antt =====
-- A store of locks in memory, for runs: when each key was set, and with which ttl.
use laravel_queue_go.Prelude.{
  ℕ, ◌≡◌, refl, Bool, true, false, Option, none, some, if◌then◌else◌, Bool-cases, inl, inr,
}
use laravel_queue_go.Prelude.Bytes.{Bytes, ◌=b◌}
use laravel_queue_go.Middleware.Lock.{LockStore, alive}

abbrev pub Locks : Type 0
Locks = Bytes → Option (ℕ × ℕ)

abbrev pub there : ℕ → Option (ℕ × ℕ) → Bool
there u none = false
there u (some (t, ttl)) = alive ttl t u

abbrev pub set_free : Bool → ℕ → Bytes → ℕ → Locks → Bool × Locks
set_free true t k ttl d = (false, d)
set_free false t k ttl d = (true, λ j. if k =b j then some (t, ttl) else d j)

pub set_free-result :
    (b : Bool) (t : ℕ) (k : Bytes) (ttl : ℕ) (d : Locks)
    → (set_free b t k ttl d).0 ≡ (if b then false else true)
set_free-result true t k ttl d = refl
set_free-result false t k ttl d = refl

pub there-set_free :
    (b : Bool) (t u : ℕ) (k j : Bytes) (ttl : ℕ) (d : Locks)
    → there u ((set_free b t k ttl d).1 j)
      ≡ (if b then there u (d j) else if k =b j then alive ttl t u else there u (d j))
there-set_free true t u k j ttl d = refl
there-set_free false t u k j ttl d = elim (Bool-cases (k =b j)) [
  | inl same ↦ rw same refl
  | inr other ↦ rw other refl
]

pub there-del :
    (u : ℕ) (k j : Bytes) (d : Locks)
    → there u (if k =b j then none else d j) ≡ (if k =b j then false else there u (d j))
there-del u k j d = elim (Bool-cases (k =b j)) [
  | inl same ↦ rw same refl
  | inr other ↦ rw other refl
]

abbrev pub locks : LockStore
locks = record {
  Db = Locks;
  holds = λ u k d. there u (d k);
  set_nx = λ t k ttl d. set_free (there t (d k)) t k ttl d;
  del = λ k d j. if k =b j then none else d j;
  set_nx-result = λ t k ttl d. set_free-result (there t (d k)) t k ttl d;
  holds-set_nx = λ t u k j ttl d le. there-set_free (there t (d k)) t u k j ttl d;
  holds-del = λ u k j d. there-del u k j d;
}
