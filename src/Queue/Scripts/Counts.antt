-- ===== src/Queue/Scripts/Counts.antt =====
-- What each script does to the number of copies of a payload in a queue.
use laravel_queue_go.Prelude.{
  ◌+◌, ◌≤◌, ◌≡◌, refl, ◌∙◌, Option, none, some, List, [], ◌∷◌, drop, arith, if◌then◌else◌,
  Option-cases, inl, inr,
}
use laravel_queue_go.Prelude.Bytes.{Bytes, ◌=b◌, =b-refl}
use laravel_queue_go.Prelude.Int.{ℤ}
use laravel_queue_go.Queue.Redis.{Redis, first}
use laravel_queue_go.Queue.Redis.Sets.{count, one_if, count-cons}
use laravel_queue_go.Queue.Keys.Distinct.{QueueKeys, AreDistinct}
use laravel_queue_go.Queue.Scripts.{lua_push, lua_later, lua_pop, reserve, lua_release, lua_delete}
use laravel_queue_go.Queue.Scripts.Copies.{
  waiting, scheduled, copies, waiting-rpush, scheduled-rpush, waiting-lpop, scheduled-lpop,
  waiting-zadd, scheduled-zadd, waiting-zrem, scheduled-zrem,
}

module _ (R : Redis) (k : QueueKeys) (apart : AreDistinct k) where
  open R use {Db, list, zset, rpush, lpop, zadd, zrem, zremrangebyrank}

  pub copies-push :
      (x p : Bytes) (d : Db)
      → copies R k x (lua_push R k.ready k.notify p d) ≡ copies R k x d + one_if (p =b x)
  unfolding copies lua_push
  copies-push x p d =
      simp (waiting-rpush R, scheduled-rpush R, apart.notify-ready, =b-refl) (omega arith)

  pub copies-later :
      (x p : Bytes) (t : ℤ) (d : Db)
      → copies R k x (lua_later R k.delayed k.notify t p d)
        ≡ waiting R k.ready x d
          + (if p =b x then 1 else scheduled R k.delayed x d)
          + scheduled R k.reserved x d
  unfolding copies lua_later
  copies-later x p t d =
      simp
        (
          waiting-rpush R,
          scheduled-rpush R,
          waiting-zadd R,
          scheduled-zadd R,
          apart.notify-ready,
          apart.delayed-reserved,
          =b-refl,
        )
        (omega arith)

  pub copies-release :
      (x p : Bytes) (t : ℤ) (d : Db)
      → copies R k x (lua_release R k.delayed k.reserved p t d)
        ≡ waiting R k.ready x d
          + (if p =b x then 1 else scheduled R k.delayed x d)
          + (if p =b x then 0 else scheduled R k.reserved x d)
  unfolding copies lua_release
  copies-release x p t d = simp (
    waiting-zadd R,
    scheduled-zadd R,
    waiting-zrem R,
    scheduled-zrem R,
    apart.delayed-reserved,
    apart.reserved-delayed,
    =b-refl,
  )

  pub copies-delete :
      (x p : Bytes) (d : Db)
      → copies R k x (lua_delete R k.reserved p d)
        ≡ waiting R k.ready x d
          + scheduled R k.delayed x d
          + (if p =b x then 0 else scheduled R k.reserved x d)
  unfolding copies lua_delete
  copies-delete x p d = simp (waiting-zrem R, scheduled-zrem R, apart.reserved-delayed, =b-refl)

  -- An empty ready list stays empty.
  first-none : (x : Bytes) (xs : List Bytes) → first xs ≡ none → count x (drop 1 xs) ≡ count x xs
  first-none x [] e = refl
  first-none x (y ∷ xs) e = cc

  first-some :
      (x : Bytes) (xs : List Bytes) {y : Bytes}
      → first xs ≡ some y
      → count x xs ≡ one_if (y =b x) + count x (drop 1 xs)
  first-some x [] e = cc
  first-some x (z ∷ xs) {y} e = let same : z ≡ y = cc in rw same (count-cons x y xs)

  reserve-none :
      (r : Bytes) (t : ℤ) (p : Option Bytes × Db) → p.0 ≡ none → reserve R r t p ≡ (none, p.1)
  unfolding reserve
  reserve-none r t (none, d) e = refl
  reserve-none r t (some y, d) e = cc

  reserve-some :
      (r : Bytes) (t : ℤ) (p : Option Bytes × Db) {y : Bytes}
      → p.0 ≡ some y
      → reserve R r t p ≡ (some y, zadd r t y p.1)
  unfolding reserve
  reserve-some r t (none, d) e = cc
  reserve-some r t (some z, d) {y} e = let same : z ≡ y = cc in rw same refl

  module _ (t : ℤ) (d : Db) where
    -- An empty ready list: nothing is reserved.
    pub lua_pop-none :
        first (list d k.ready) ≡ none
        → lua_pop R k.ready k.reserved t d ≡ (none, (lpop k.ready d).1)
    unfolding lua_pop
    lua_pop-none e = reserve-none k.reserved t _ (R.lpop-first k.ready d ∙ e)

    -- The first payload of the ready list is taken off it and reserved.
    pub lua_pop-some :
        {y : Bytes}
        → first (list d k.ready) ≡ some y
        → lua_pop R k.ready k.reserved t d ≡ (some y, zadd k.reserved t y (lpop k.ready d).1)
    unfolding lua_pop
    lua_pop-some e = reserve-some k.reserved t _ (R.lpop-first k.ready d ∙ e)

    pub copies-pop_none :
        (x : Bytes)
        → first (list d k.ready) ≡ none
        → copies R k x (lua_pop R k.ready k.reserved t d).1 ≡ copies R k x d
    unfolding copies
    copies-pop_none x e = rw (lua_pop-none e) (
        simp (waiting-lpop R, scheduled-lpop R, =b-refl)
          (unfold waiting in omega (arith, first-none x (list d k.ready) e)))

    pub copies-pop_some :
        (x : Bytes) {y : Bytes}
        → first (list d k.ready) ≡ some y
        → copies R k x (lua_pop R k.ready k.reserved t d).1
          ≡ count x (drop 1 (list d k.ready))
            + scheduled R k.delayed x d
            + (if y =b x then 1 else scheduled R k.reserved x d)
    unfolding copies
    copies-pop_some x e = rw (lua_pop-some e) (
        simp (
          waiting-zadd R,
          scheduled-zadd R,
          waiting-lpop R,
          scheduled-lpop R,
          apart.reserved-delayed,
          =b-refl,
        ))

    -- A pop makes no copy, and takes away none that is the last one.
    pub copies-pop :
        (x : Bytes)
        → (copies R k x (lua_pop R k.ready k.reserved t d).1 ≤ copies R k x d)
          × (1 ≤ copies R k x d → 1 ≤ copies R k x (lua_pop R k.ready k.reserved t d).1)
    copies-pop x = elim (Option-cases (first (list d k.ready))) [
      | inl e ↦ (omega (arith, copies-pop_none x e), λ h. omega (arith, copies-pop_none x e))
      | inr (y, e) ↦
          let after = copies-pop_some x e in
          let counted = first-some x (list d k.ready) e in
          unfold copies waiting in ground (arith, after, counted)
    ]
