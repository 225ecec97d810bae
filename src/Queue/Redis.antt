-- ===== src/Queue/Redis.antt =====
-- What the driver relies on of a Redis server: lists and sorted sets under keys, and the commands of
-- the Lua scripts and of the client. A command on a key that holds the other kind of value is not
-- modelled: no key here is used as both.
pub mod Sets
pub mod Memory
use laravel_queue_go.Prelude.{
  ℕ, zero, suc, ◌+◌, ◌≡◌, Bool, true, false, ◌||◌, ◌&&◌, Option, none, some, List, [], ◌∷◌, ◌++◌,
  map, take, drop, length, if◌then◌else◌,
}
use laravel_queue_go.Prelude.Bytes.{Bytes, ◌=b◌, leq_b}
use laravel_queue_go.Prelude.Dict.{Dict, remove}
use laravel_queue_go.Prelude.Int.{ℤ, pos, negsuc, leb_ℤ, ltb_ℤ}

-- The members of a sorted set with their scores, in the order of their ranks.
abbrev pub SortedSet : Type 0
SortedSet = Dict ℤ

abbrev pub members : SortedSet → List Bytes
members = map (λ e. e.0)

-- By score, and by member where the scores are equal.
unfoldable pub before : Bytes × ℤ → Bytes × ℤ → Bool
before (m, s) (n, t) = ltb_ℤ s t || (leb_ℤ s t && leq_b m n)

unfoldable pub rank_in : Bytes × ℤ → SortedSet → SortedSet
unfolding before
rank_in e [] = e ∷ []
rank_in e (f ∷ z) = let rest = f ∷ rank_in e z in if before e f then e ∷ f ∷ z else rest

-- The members with a score of at most `max`, in order.
unfoldable pub up_to : ℤ → SortedSet → List Bytes
up_to max [] = []
up_to max ((m, s) ∷ z) = let rest = up_to max z in if leb_ℤ s max then m ∷ rest else rest

-- `LIMIT 0 n`: a negative n is no limit.
unfoldable pub limit : ℤ → List Bytes → List Bytes
limit (pos n) xs = take n xs
limit (negsuc n) xs = xs

abbrev pub first : List Bytes → Option Bytes
first [] = none
first (x ∷ xs) = some x

-- `list` and `zset` are what LRANGE and ZRANGE show of a key; a missing key is empty.
pub record Redis : Type 1 where
  pub Db : Type 0
  pub list : Db → Bytes → List Bytes
  pub zset : Db → Bytes → SortedSet
  pub rpush : Bytes → Bytes → Db → Db
  pub lpop : Bytes → Db → Option Bytes × Db
  pub zadd : Bytes → ℤ → Bytes → Db → Db
  pub zrem : Bytes → Bytes → Db → Db
  pub zrangebyscore : Bytes → ℤ → ℤ → Db → List Bytes
  pub zremrangebyrank : Bytes → ℕ → Db → Db
  pub llen : Bytes → Db → ℕ
  pub zcard : Bytes → Db → ℕ
  pub del : Bytes → Db → Db
  pub list-rpush :
      (k v : Bytes) (d : Db) (j : Bytes)
      → list (rpush k v d) j ≡ (if k =b j then list d j ++ v ∷ [] else list d j)
  pub zset-rpush : (k v : Bytes) (d : Db) (j : Bytes) → zset (rpush k v d) j ≡ zset d j
  pub lpop-first : (k : Bytes) (d : Db) → (lpop k d).0 ≡ first (list d k)
  pub list-lpop :
      (k : Bytes) (d : Db) (j : Bytes)
      → list (lpop k d).1 j ≡ (if k =b j then drop 1 (list d j) else list d j)
  pub zset-lpop : (k : Bytes) (d : Db) (j : Bytes) → zset (lpop k d).1 j ≡ zset d j
  pub list-zadd :
      (k : Bytes) (s : ℤ) (m : Bytes) (d : Db) (j : Bytes) → list (zadd k s m d) j ≡ list d j
  pub zset-zadd :
      (k : Bytes) (s : ℤ) (m : Bytes) (d : Db) (j : Bytes)
      → zset (zadd k s m d) j ≡ (if k =b j then rank_in (m, s) (remove m (zset d j)) else zset d j)
  pub list-zrem : (k m : Bytes) (d : Db) (j : Bytes) → list (zrem k m d) j ≡ list d j
  pub zset-zrem :
      (k m : Bytes) (d : Db) (j : Bytes)
      → zset (zrem k m d) j ≡ (if k =b j then remove m (zset d j) else zset d j)
  pub zrangebyscore_lem :
      (k : Bytes) (max n : ℤ) (d : Db) → zrangebyscore k max n d ≡ limit n (up_to max (zset d k))
  -- ZREMRANGEBYRANK k 0 stop.
  pub list-zremrangebyrank :
      (k : Bytes) (stop : ℕ) (d : Db) (j : Bytes) → list (zremrangebyrank k stop d) j ≡ list d j
  pub zset-zremrangebyrank :
      (k : Bytes) (stop : ℕ) (d : Db) (j : Bytes)
      → zset (zremrangebyrank k stop d) j
        ≡ (if k =b j then drop (suc stop) (zset d j) else zset d j)
  pub llen_lem : (k : Bytes) (d : Db) → llen k d ≡ length (list d k)
  pub zcard_lem : (k : Bytes) (d : Db) → zcard k d ≡ length (zset d k)
  pub list-del :
      (k : Bytes) (d : Db) (j : Bytes) → list (del k d) j ≡ (if k =b j then [] else list d j)
  pub zset-del :
      (k : Bytes) (d : Db) (j : Bytes) → zset (del k d) j ≡ (if k =b j then [] else zset d j)
