-- ===== src/Queue/Scripts.antt =====
-- pkg/queue/lua.go: the scripts, each of which Redis runs as one atomic step.
pub mod Copies
pub mod Counts
pub mod Sorted
pub mod Migrate
pub mod Trace
use laravel_queue_go.Prelude.{ℕ, ◌+◌, ◌-◌, Option, none, some, List, [], ◌∷◌, length}
use laravel_queue_go.Prelude.Bytes.{Bytes, codes}
use laravel_queue_go.Prelude.Int.{ℤ}
use laravel_queue_go.Queue.Redis.{Redis}

module _ (R : Redis) where
  open R use {Db, rpush, lpop, zadd, zrem, zrangebyscore, zremrangebyrank, llen, zcard, del}

  unfoldable pub lua_push : Bytes → Bytes → Bytes → Db → Db
  lua_push ready notify payload d = rpush notify (codes "1") (rpush ready payload d)

  unfoldable pub lua_later : Bytes → Bytes → ℤ → Bytes → Db → Db
  lua_later delayed notify available_at payload d =
      rpush notify (codes "1") (zadd delayed available_at payload d)

  unfoldable pub reserve : Bytes → ℤ → Option Bytes × Db → Option Bytes × Db
  reserve reserved reserved_until (none, d) = (none, d)
  reserve reserved reserved_until (some job, d) = (some job, zadd reserved reserved_until job d)

  unfoldable pub lua_pop : Bytes → Bytes → ℤ → Db → Option Bytes × Db
  unfolding reserve
  lua_pop ready reserved reserved_until d = reserve reserved reserved_until (lpop ready d)

  unfoldable pub lua_release : Bytes → Bytes → Bytes → ℤ → Db → Db
  lua_release delayed reserved payload available_at d =
      zadd delayed available_at payload (zrem reserved payload d)

  unfoldable pub lua_delete : Bytes → Bytes → Db → Db
  lua_delete reserved payload d = zrem reserved payload d

  -- The loop over the values found.
  unfoldable pub push_all : Bytes → Bytes → List Bytes → Db → Db
  push_all to notify [] d = d
  push_all to notify (v ∷ vs) d = push_all to notify vs (rpush notify (codes "1") (rpush to v d))

  unfoldable pub move_all : Bytes → Bytes → Bytes → List Bytes → Db → List Bytes × Db
  unfolding push_all
  move_all from to notify [] d = ([], d)
  move_all from to notify (v ∷ vs) d =
      (v ∷ vs, push_all to notify (v ∷ vs) (zremrangebyrank from (length (v ∷ vs) - 1) d))

  unfoldable pub lua_migrate : Bytes → Bytes → Bytes → ℤ → ℤ → Db → List Bytes × Db
  unfolding move_all
  lua_migrate from to notify now batch d =
      move_all from to notify (zrangebyscore from now batch d) d

  unfoldable pub lua_clear : Bytes → Bytes → Bytes → Bytes → Db → ℕ × Db
  lua_clear ready delayed reserved notify d = (
    llen ready d + zcard delayed d + zcard reserved d,
    del notify (del reserved (del delayed (del ready d))),
  )
