-- ===== src/Queue/Redis/Memory.antt =====
-- A Redis server in memory, for runs: what is under each key, as functions.
use laravel_queue_go.Prelude.{◌++◌, [], ◌∷◌, List, drop, suc, length, refl, if◌then◌else◌}
use laravel_queue_go.Prelude.Bytes.{Bytes, ◌=b◌}
use laravel_queue_go.Prelude.Dict.{remove}
use laravel_queue_go.Queue.Redis.{Redis, SortedSet, rank_in, up_to, limit, first}

abbrev pub memory : Redis
memory = record {
  Db = (Bytes → List Bytes) × (Bytes → SortedSet);
  list = λ d. d.0;
  zset = λ d. d.1;
  rpush = λ k v d. (λ j. if k =b j then d.0 j ++ v ∷ [] else d.0 j, d.1);
  lpop = λ k d. (first (d.0 k), (λ j. if k =b j then drop 1 (d.0 j) else d.0 j, d.1));
  zadd = λ k s m d. (d.0, λ j. if k =b j then rank_in (m, s) (remove m (d.1 j)) else d.1 j);
  zrem = λ k m d. (d.0, λ j. if k =b j then remove m (d.1 j) else d.1 j);
  zrangebyscore = λ k max n d. limit n (up_to max (d.1 k));
  zremrangebyrank = λ k stop d. (d.0, λ j. if k =b j then drop (suc stop) (d.1 j) else d.1 j);
  llen = λ k d. length (d.0 k);
  zcard = λ k d. length (d.1 k);
  del = λ k d. (λ j. if k =b j then [] else d.0 j, λ j. if k =b j then [] else d.1 j);
  list-rpush = λ k v d j. refl;
  zset-rpush = λ k v d j. refl;
  lpop-first = λ k d. refl;
  list-lpop = λ k d j. refl;
  zset-lpop = λ k d j. refl;
  list-zadd = λ k s m d j. refl;
  zset-zadd = λ k s m d j. refl;
  list-zrem = λ k m d j. refl;
  zset-zrem = λ k m d j. refl;
  zrangebyscore_lem = λ k max n d. refl;
  list-zremrangebyrank = λ k stop d j. refl;
  zset-zremrangebyrank = λ k stop d j. refl;
  llen_lem = λ k d. refl;
  zcard_lem = λ k d. refl;
  list-del = λ k d j. refl;
  zset-del = λ k d j. refl;
}

abbrev pub empty_db : memory.Db
empty_db = (λ j. [], λ j. [])
