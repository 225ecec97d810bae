-- ===== src/Queue/Scripts/Copies.antt =====
-- How often a payload stands in a queue, and what each command does to that number.
use laravel_queue_go.Prelude.{
  ℕ, suc, ◌+◌, ◌≡◌, refl, [], ◌∷◌, drop, arith, if◌then◌else◌, Bool-cases, inl, inr,
}
use laravel_queue_go.Prelude.Bytes.{Bytes, ◌=b◌}
use laravel_queue_go.Prelude.Dict.{remove}
use laravel_queue_go.Prelude.Int.{ℤ}
use laravel_queue_go.Queue.Redis.{Redis, members}
use laravel_queue_go.Queue.Redis.Sets.{
  count, one_if, count-append, count-cons, count-nil, count-remove, count-rank_in,
}
use laravel_queue_go.Queue.Keys.Distinct.{QueueKeys}

module _ (R : Redis) where
  open R use {Db, list, zset, rpush, lpop, zadd, zrem, zremrangebyrank}

  unfoldable pub waiting : Bytes → Bytes → Db → ℕ
  waiting key x d = count x (list d key)

  unfoldable pub scheduled : Bytes → Bytes → Db → ℕ
  scheduled key x d = count x (members (zset d key))

  -- Ready, delayed and reserved together.
  unfoldable pub copies : QueueKeys → Bytes → Db → ℕ
  copies k x d = waiting k.ready x d + scheduled k.delayed x d + scheduled k.reserved x d

  module _ (key x j : Bytes) where
    pub waiting-rpush :
        (v : Bytes) (d : Db)
        → waiting key x (rpush j v d) ≡ waiting key x d + (if j =b key then one_if (v =b x) else 0)
    unfolding waiting
    waiting-rpush v d = rw R.list-rpush (elim (Bool-cases (j =b key)) [
      | inl hit ↦
          rw hit
            (omega (arith, count-append x (list d key) (v ∷ []), count-cons x v [], count-nil x))
      | inr miss ↦ rw miss (omega arith)
    ])

    pub scheduled-rpush : (v : Bytes) (d : Db) → scheduled key x (rpush j v d) ≡ scheduled key x d
    unfolding scheduled
    scheduled-rpush v d = rw R.zset-rpush refl

    pub waiting-lpop :
        (d : Db)
        → waiting key x (lpop j d).1
          ≡ (if j =b key then count x (drop 1 (list d key)) else waiting key x d)
    unfolding waiting
    waiting-lpop d =
        rw R.list-lpop
          (elim (Bool-cases (j =b key)) [ inl hit ↦ rw hit refl | inr miss ↦ rw miss refl ])

    pub scheduled-lpop : (d : Db) → scheduled key x (lpop j d).1 ≡ scheduled key x d
    unfolding scheduled
    scheduled-lpop d = rw R.zset-lpop refl

    pub waiting-zadd : (s : ℤ) (m : Bytes) (d : Db) → waiting key x (zadd j s m d) ≡ waiting key x d
    unfolding waiting
    waiting-zadd s m d = rw R.list-zadd refl

    pub scheduled-zadd :
        (s : ℤ) (m : Bytes) (d : Db)
        → scheduled key x (zadd j s m d)
          ≡ (if j =b key then (if m =b x then 1 else scheduled key x d) else scheduled key x d)
    unfolding scheduled
    scheduled-zadd s m d = rw R.zset-zadd (elim (Bool-cases (j =b key)) [
      | inl hit ↦ rw hit (
          ground
            (arith, count-rank_in x m s (remove m (zset d key)), count-remove x m (zset d key)))
      | inr miss ↦ rw miss refl
    ])

    pub waiting-zrem : (m : Bytes) (d : Db) → waiting key x (zrem j m d) ≡ waiting key x d
    unfolding waiting
    waiting-zrem m d = rw R.list-zrem refl

    pub scheduled-zrem :
        (m : Bytes) (d : Db)
        → scheduled key x (zrem j m d)
          ≡ (if j =b key then (if m =b x then 0 else scheduled key x d) else scheduled key x d)
    unfolding scheduled
    scheduled-zrem m d = rw R.zset-zrem (elim (Bool-cases (j =b key)) [
      | inl hit ↦ rw hit (count-remove x m (zset d key))
      | inr miss ↦ rw miss refl
    ])

    pub waiting-zremrangebyrank :
        (n : ℕ) (d : Db) → waiting key x (zremrangebyrank j n d) ≡ waiting key x d
    unfolding waiting
    waiting-zremrangebyrank n d = rw R.list-zremrangebyrank refl

    pub scheduled-zremrangebyrank :
        (n : ℕ) (d : Db)
        → scheduled key x (zremrangebyrank j n d)
          ≡ (if j =b key then count x (members (drop (suc n) (zset d key))) else scheduled key x d)
    unfolding scheduled
    scheduled-zremrangebyrank n d =
        rw R.zset-zremrangebyrank
          (elim (Bool-cases (j =b key)) [ inl hit ↦ rw hit refl | inr miss ↦ rw miss refl ])
