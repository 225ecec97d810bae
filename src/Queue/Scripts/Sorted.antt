-- ===== src/Queue/Scripts/Sorted.antt =====
-- The scripts of pkg/queue/lua.go and the order of the sorted sets by score.
use laravel_queue_go.Prelude.{
  ℕ, suc, true, false, Option, none, some, List, [], ◌∷◌, if◌then◌else◌, Bool,
}
use laravel_queue_go.Prelude.Bytes.{Bytes, ◌=b◌}
use laravel_queue_go.Prelude.Int.{ℤ}
use laravel_queue_go.Queue.Redis.{Redis, SortedSet}
use laravel_queue_go.Queue.Redis.Sets.{IsSorted, remove-IsSorted, rank_in-IsSorted, drop-IsSorted}
use laravel_queue_go.Queue.Scripts.{
  lua_push, lua_later, lua_pop, reserve, lua_release, lua_delete, lua_migrate, move_all, push_all,
}

choose : (b : Bool) (y z : SortedSet) → IsSorted y → IsSorted z → IsSorted (if b then y else z)
choose true y z hy hz = hy
choose false y z hy hz = hz

module _ (R : Redis) where
  open R use {Db, zset, rpush, lpop, zadd, zrem, zremrangebyrank}

  abbrev pub AllSorted : Db → Type 0
  AllSorted d = (j : Bytes) → IsSorted (zset d j)

  rpush-AllSorted : (k v : Bytes) (d : Db) → AllSorted d → AllSorted (rpush k v d)
  rpush-AllSorted k v d h j = rw R.zset-rpush (h j)

  pub lpop-AllSorted : (k : Bytes) (d : Db) → AllSorted d → AllSorted (lpop k d).1
  lpop-AllSorted k d h j = rw R.zset-lpop (h j)

  zadd-AllSorted : (k : Bytes) (s : ℤ) (m : Bytes) (d : Db) → AllSorted d → AllSorted (zadd k s m d)
  zadd-AllSorted k s m d h j =
      rw R.zset-zadd
        (choose (k =b j) _ _ (rank_in-IsSorted m s _ (remove-IsSorted m _ (h j))) (h j))

  zrem-AllSorted : (k m : Bytes) (d : Db) → AllSorted d → AllSorted (zrem k m d)
  zrem-AllSorted k m d h j = rw R.zset-zrem (choose (k =b j) _ _ (remove-IsSorted m _ (h j)) (h j))

  zremrangebyrank-AllSorted :
      (k : Bytes) (n : ℕ) (d : Db) → AllSorted d → AllSorted (zremrangebyrank k n d)
  zremrangebyrank-AllSorted k n d h j =
      rw R.zset-zremrangebyrank (choose (k =b j) _ _ (drop-IsSorted (suc n) _ (h j)) (h j))

  pub lua_push-AllSorted : (r n p : Bytes) (d : Db) → AllSorted d → AllSorted (lua_push R r n p d)
  unfolding lua_push
  lua_push-AllSorted r n p d h = rpush-AllSorted n _ _ (rpush-AllSorted r p d h)

  pub lua_later-AllSorted :
      (k n : Bytes) (t : ℤ) (p : Bytes) (d : Db) → AllSorted d → AllSorted (lua_later R k n t p d)
  unfolding lua_later
  lua_later-AllSorted k n t p d h = rpush-AllSorted n _ _ (zadd-AllSorted k t p d h)

  reserve-AllSorted :
      (r : Bytes) (t : ℤ) (p : Option Bytes × Db) → AllSorted p.1 → AllSorted (reserve R r t p).1
  unfolding reserve
  reserve-AllSorted r t (none, d) h = h
  reserve-AllSorted r t (some y, d) h = zadd-AllSorted r t y d h

  pub lua_pop-AllSorted :
      (k r : Bytes) (t : ℤ) (d : Db) → AllSorted d → AllSorted (lua_pop R k r t d).1
  unfolding lua_pop
  lua_pop-AllSorted k r t d h = reserve-AllSorted r t (lpop k d) (lpop-AllSorted k d h)

  pub lua_release-AllSorted :
      (k r p : Bytes) (t : ℤ) (d : Db) → AllSorted d → AllSorted (lua_release R k r p t d)
  unfolding lua_release
  lua_release-AllSorted k r p t d h = zadd-AllSorted k t p _ (zrem-AllSorted r p d h)

  pub lua_delete-AllSorted : (r p : Bytes) (d : Db) → AllSorted d → AllSorted (lua_delete R r p d)
  unfolding lua_delete
  lua_delete-AllSorted r p d h = zrem-AllSorted r p d h

  push_all-AllSorted :
      (to n : Bytes) (vs : List Bytes) (d : Db) → AllSorted d → AllSorted (push_all R to n vs d)
  unfolding push_all
  push_all-AllSorted to n [] d h = h
  push_all-AllSorted to n (v ∷ vs) d h =
      push_all-AllSorted to n vs _ (rpush-AllSorted n _ _ (rpush-AllSorted to v d h))

  move_all-AllSorted :
      (from to n : Bytes) (vs : List Bytes) (d : Db)
      → AllSorted d
      → AllSorted (move_all R from to n vs d).1
  unfolding move_all
  move_all-AllSorted from to n [] d h = h
  move_all-AllSorted from to n (v ∷ vs) d h =
      push_all-AllSorted to n (v ∷ vs) _ (zremrangebyrank-AllSorted from _ d h)

  pub lua_migrate-AllSorted :
      (from to n : Bytes) (now b : ℤ) (d : Db)
      → AllSorted d
      → AllSorted (lua_migrate R from to n now b d).1
  unfolding lua_migrate
  lua_migrate-AllSorted from to n now b d h =
      move_all-AllSorted from to n (R.zrangebyscore from now b d) d h
