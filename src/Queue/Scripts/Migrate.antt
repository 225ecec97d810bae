-- ===== src/Queue/Scripts/Migrate.antt =====
-- luaMigrate of pkg/queue/lua.go: what it takes off a sorted set and what it puts on the ready list.
use laravel_queue_go.Prelude.{
  ℕ, zero, suc, ◌+◌, ◌-◌, ◌≡◌, refl, sym, ap, ◌∙◌, false, List, [], ◌∷◌, ◌++◌, take, drop, length,
  arith, append-nil, append_assoc,
}
use laravel_queue_go.Prelude.Bytes.{Bytes, ◌=b◌, =b-refl}
use laravel_queue_go.Prelude.Int.{ℤ, pos, negsuc}
use laravel_queue_go.Queue.Redis.{Redis, members, limit}
use laravel_queue_go.Queue.Redis.Sets.{
  count, count-cons, count-nil, count-drop-take, IsSorted, up_to-take, map-drop,
}
use laravel_queue_go.Queue.Scripts.{lua_migrate, move_all, push_all}
use laravel_queue_go.Queue.Scripts.Copies.{
  waiting, scheduled, waiting-rpush, scheduled-rpush, waiting-zremrangebyrank,
  scheduled-zremrangebyrank,
}

take-take : (n m : ℕ) (xs : List Bytes) → take n (take m xs) ≡ take (length (take n (take m xs))) xs
take-take zero m xs = refl
take-take (suc n) zero xs = refl
take-take (suc n) (suc m) [] = refl
take-take (suc n) (suc m) (x ∷ xs) = ap (λ l. x ∷ l) (take-take n m xs)

limit-take :
    (b : ℤ) (m : ℕ) (xs ys : List Bytes)
    → ys ≡ take m xs
    → length ys ≡ m
    → limit b ys ≡ take (length (limit b ys)) xs
unfolding limit
limit-take (pos n) m xs ys e _ = rw e (take-take n m xs)
limit-take (negsuc n) m xs ys e l = rw l e

module _ (R : Redis) (to notify : Bytes) (apart : (notify =b to) ≡ false) where
  open R use {Db, list, zset, rpush, zremrangebyrank}

  waiting-push_all :
      (x : Bytes) (vs : List Bytes) (d : Db)
      → waiting R to x (push_all R to notify vs d) ≡ waiting R to x d + count x vs
  unfolding push_all
  waiting-push_all x [] d = omega (arith, count-nil x)
  waiting-push_all x (v ∷ vs) d =
      waiting-push_all x vs _
      ∙ simp (waiting-rpush R, apart, =b-refl) (omega (arith, count-cons x v vs))

  scheduled-push_all :
      (key x : Bytes) (vs : List Bytes) (d : Db)
      → scheduled R key x (push_all R to notify vs d) ≡ scheduled R key x d
  unfolding push_all
  scheduled-push_all key x [] d = refl
  scheduled-push_all key x (v ∷ vs) d = scheduled-push_all key x vs _ ∙ simp (scheduled-rpush R)

  list-push_all : (vs : List Bytes) (d : Db) → list (push_all R to notify vs d) to ≡ list d to ++ vs
  unfolding push_all
  list-push_all [] d = sym (append-nil (list d to))
  list-push_all (v ∷ vs) d = list-push_all vs _ ∙ simp (R.list-rpush, apart, =b-refl, append_assoc)

  zset-push_all :
      (j : Bytes) (vs : List Bytes) (d : Db) → zset (push_all R to notify vs d) j ≡ zset d j
  unfolding push_all
  zset-push_all j [] d = refl
  zset-push_all j (v ∷ vs) d = zset-push_all j vs _ ∙ simp R.zset-rpush

  module _ (from : Bytes) where
    waiting-move_all :
        (x : Bytes) (vs : List Bytes) (d : Db)
        → waiting R to x (move_all R from to notify vs d).1 ≡ waiting R to x d + count x vs
    unfolding move_all
    waiting-move_all x [] d = omega (arith, count-nil x)
    waiting-move_all x (v ∷ vs) d = waiting-push_all x (v ∷ vs) _ ∙ simp (waiting-zremrangebyrank R)

    scheduled-move_all :
        (key x : Bytes) (vs : List Bytes) (d : Db)
        → (from =b key) ≡ false
        → scheduled R key x (move_all R from to notify vs d).1 ≡ scheduled R key x d
    unfolding move_all
    scheduled-move_all key x [] d _ = refl
    scheduled-move_all key x (v ∷ vs) d miss =
        scheduled-push_all key x (v ∷ vs) _ ∙ simp (scheduled-zremrangebyrank R, miss)

    zset-move_all :
        (vs : List Bytes) (d : Db)
        → zset (move_all R from to notify vs d).1 from ≡ drop (length vs) (zset d from)
    unfolding move_all
    zset-move_all [] d = refl
    zset-move_all (v ∷ vs) d =
        let count : suc (length (v ∷ vs) - 1) ≡ length (v ∷ vs) = omega arith in
        zset-push_all from (v ∷ vs) _ ∙ simp (R.zset-zremrangebyrank, =b-refl) (rw count)

    -- The values found are a first part of the sorted set.
    found-take :
        (now b : ℤ) (d : Db)
        → IsSorted (zset d from)
        → R.zrangebyscore from now b d
          ≡ take (length (R.zrangebyscore from now b d)) (members (zset d from))
    found-take now b d sorted =
        rw (R.zrangebyscore_lem from now b d)
          (limit-take b _ (members (zset d from)) _ (up_to-take now _ sorted) refl)

    -- Each payload leaves the sorted set as often as it comes to the ready list.
    pub migrate_moves :
        (x : Bytes) (now b : ℤ) (d : Db)
        → IsSorted (zset d from)
        → let d' = (lua_migrate R from to notify now b d).1 in
          waiting R to x d' + scheduled R from x d' ≡ waiting R to x d + scheduled R from x d
    unfolding lua_migrate scheduled
    migrate_moves x now b d sorted =
        let vs = R.zrangebyscore from now b d in
        let parts = count-drop-take x (length vs) (members (zset d from)) in
        rw (zset-move_all vs d, map-drop (length vs) (zset d from))
          (omega (arith, waiting-move_all x vs d, parts, ap (count x) (found-take now b d sorted)))

    pub scheduled-migrate :
        (key x : Bytes) (now b : ℤ) (d : Db)
        → (from =b key) ≡ false
        → scheduled R key x (lua_migrate R from to notify now b d).1 ≡ scheduled R key x d
    unfolding lua_migrate
    scheduled-migrate key x now b d miss =
        scheduled-move_all key x (R.zrangebyscore from now b d) d miss
