-- ===== src/Middleware/Lock/Alone.antt =====
-- lockMiddleware of pkg/middleware/unique.go around one job, with Redis reachable.
use laravel_queue_go.Prelude.{
  ℕ, ◌≡◌, refl, Bool, true, false, Option, ◌⊎◌, inl, inr, ◌++◌, if◌then◌else◌,
}
use laravel_queue_go.Prelude.Bytes.{Bytes, =b-refl}
use laravel_queue_go.Middleware.Pipeline.{Action}
use laravel_queue_go.Middleware.Lock.{
  LockStore, Link, up, Site, give_up_lock, run_locked, on_reply, on_link, lock_middleware,
}

module _ (L : LockStore) {E W : Type 0} (site : Site L E W) where
  -- Every call comes back, and what is put is what is there.
  pub record IsReachable : Type 0 where
    pub connected : (s : W) → site.link s ≡ up
    pub put : (d : L.Db) (s : W) → site.db (site.put_db d s) ≡ d

  released :
      (key : Bytes) (l : Link E) (s : W) (u : ℕ)
      → IsReachable
      → l ≡ up
      → L.holds u key (site.db (give_up_lock L site l key s)) ≡ false
  unfolding give_up_lock
  released key up s u h e =
      rw (h.put (L.del key (site.db s)) s, L.holds-del u key key (site.db s), =b-refl key) refl
  released key (Link.refused x) s u h e = cc
  released key (Link.reply_lost x) s u h e = cc

  module _ (prefix : Bytes) (ttl : ℕ) (conflict : Option E) (next : Action E W) (s : W) where
    abbrev pub key : Bytes
    key = prefix ++ site.key_of s

    abbrev pub taken : Bool × L.Db
    taken = L.set_nx (site.time s) key ttl (site.db s)

    -- The job is turned away, or it runs and the key is gone afterwards; `d` is the database behind
    -- SETNX.
    abbrev pub RunsIfFree : L.Db → Option E × W → Type 0
    RunsIfFree d after =
        ((L.holds (site.time s) key (site.db s) ≡ true) × (after ≡ (conflict, site.put_db d s)))
        ⊎ ((L.holds (site.time s) key (site.db s) ≡ false)
            × (after.0 ≡ (next (site.put_db d s)).0)
            × ((u : ℕ) → L.holds u key (site.db after.1) ≡ false))

    on_reply-cases :
        (r : Bool × L.Db)
        → IsReachable
        → (L.holds (site.time s) key (site.db s) ≡ (if r.0 then false else true))
        → RunsIfFree r.1 (on_reply L site key conflict next r s)
    unfolding on_reply run_locked
    on_reply-cases (true, d) h free = inr (free, refl, λ u. released key _ _ u h (h.connected _))
    on_reply-cases (false, d) h held = inl (held, refl)

    -- With Redis reachable, a job behind the lock is turned away with the conflict's outcome exactly
    -- where its key is there; otherwise the handler's outcome is that of the middleware, and the key
    -- is gone afterwards, at any time, whatever the handler does.
    pub lock_middleware-cases :
        IsReachable → RunsIfFree taken.1 (lock_middleware L site prefix ttl conflict next s)
    unfolding lock_middleware on_link
    lock_middleware-cases h =
        rw (h.connected s)
          (on_reply-cases taken h (flip _ _ (L.set_nx-result (site.time s) key ttl (site.db s))))
      where
        flip : (b c : Bool) → b ≡ (if c then false else true) → c ≡ (if b then false else true)
        flip true true e = cc
        flip true false e = refl
        flip false true e = refl
        flip false false e = cc
