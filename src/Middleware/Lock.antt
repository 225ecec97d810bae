-- ===== src/Middleware/Lock.antt =====
-- pkg/middleware/unique.go: a lock in Redis around the handler. Times are nanoseconds; a negative ttl
-- is not modelled.
pub mod Overlap
pub mod Alone
pub mod Memory
use laravel_queue_go.Prelude.{
  ℕ, zero, suc, ◌+◌, ◌≤◌, ◌≡◌, Bool, true, false, Option, none, some, ◌++◌, ltb, if◌then◌else◌,
}
use laravel_queue_go.Prelude.Bytes.{Bytes, codes, ◌=b◌}
use laravel_queue_go.Prelude.Int.{ℤ, pos}
use laravel_queue_go.Middleware.Pipeline.{Action, Middleware}

-- A key set at t with a ttl is there at u; a ttl of 0 is none.
abbrev pub alive : ℕ → ℕ → ℕ → Bool
alive zero t u = true
alive (suc n) t u = ltb u (t + suc n)

-- What the lock relies on of Redis: `holds` is EXISTS at a time, `set_nx` is SETNX with a ttl at a
-- time. SETNX on a key that is there changes nothing.
pub record LockStore : Type 1 where
  pub Db : Type 0
  pub holds : ℕ → Bytes → Db → Bool
  pub set_nx : ℕ → Bytes → ℕ → Db → Bool × Db
  pub del : Bytes → Db → Db
  pub set_nx-result :
      (t : ℕ) (k : Bytes) (ttl : ℕ) (d : Db)
      → (set_nx t k ttl d).0 ≡ (if holds t k d then false else true)
  pub holds-set_nx :
      (t u : ℕ) (k j : Bytes) (ttl : ℕ) (d : Db)
      → t ≤ u
      → holds u j (set_nx t k ttl d).1
        ≡ (if holds t k d then holds u j d else if k =b j then alive ttl t u else holds u j d)
  pub holds-del :
      (u : ℕ) (k j : Bytes) (d : Db) → holds u j (del k d) ≡ (if k =b j then false else holds u j d)

-- How a call of the client ends.
pub data Link (E : Type 0) : Type 0 where
  up : Link E
  refused reply_lost : E → Link E

-- What the middleware sees of the world that the job runs in: the job's key, the clock, the next
-- call's fate, the database.
pub record Site (L : LockStore) (E W : Type 0) : Type 0 where
  pub key_of : W → Bytes
  pub time : W → ℕ
  pub link : W → Link E
  pub db : W → L.Db
  pub put_db : L.Db → W → W

module _ (L : LockStore) {E W : Type 0} (site : Site L E W) where
  -- `_ = client.Del(ctx, key).Err()`.
  give_up_lock : Link E → Bytes → W → W
  give_up_lock (refused e) key s = s
  give_up_lock up key s = site.put_db (L.del key (site.db s)) s
  give_up_lock (reply_lost e) key s = site.put_db (L.del key (site.db s)) s

  run_locked : Bytes → Option E × W → Option E × W
  unfolding give_up_lock
  run_locked key (r, s) = (r, give_up_lock (site.link s) key s)

  -- Behind a SETNX that came back.
  on_reply : Bytes → Option E → Action E W → Bool × L.Db → W → Option E × W
  unfolding run_locked
  on_reply key conflict next (true, d) s = run_locked key (next (site.put_db d s))
  on_reply key conflict next (false, d) s = (conflict, site.put_db d s)

  on_link : Link E → Bytes → Option E → Action E W → Bool × L.Db → W → Option E × W
  unfolding on_reply
  on_link up key conflict next r s = on_reply key conflict next r s
  on_link (refused e) key conflict next r s = (some e, s)
  on_link (reply_lost e) key conflict next (b, d) s = (some e, site.put_db d s)

  unfoldable pub lock_middleware : Bytes → ℕ → Option E → Middleware E W
  unfolding on_link
  lock_middleware prefix ttl conflict next s =
      let key = prefix ++ site.key_of s in
      on_link (site.link s) key conflict next (L.set_nx (site.time s) key ttl (site.db s)) s

  -- A job that does not get the lock is dropped.
  unfoldable pub unique : ℕ → Middleware E W
  unfolding lock_middleware
  unique ttl = lock_middleware (codes "laravel_unique_job:") ttl none

  -- A job that does not get the lock asks to be released for ten seconds: `release_error`.
  unfoldable pub without_overlapping : (ℤ → E) → ℕ → Middleware E W
  unfolding lock_middleware
  without_overlapping release_error ttl =
      lock_middleware (codes "laravel_overlapping:") ttl (some (release_error (pos 10000000000)))
