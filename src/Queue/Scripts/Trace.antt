-- ===== src/Queue/Scripts/Trace.antt =====
-- Any number of clients, Go or Laravel, that run the scripts on one queue in any order.
use laravel_queue_go.Prelude.{◌≤◌, ◌≡◌, false, List, [], ◌∷◌, arith, Bool}
use laravel_queue_go.Prelude.Bytes.{Bytes, ◌=b◌}
use laravel_queue_go.Prelude.Int.{ℤ}
use laravel_queue_go.Queue.Redis.{Redis}
use laravel_queue_go.Queue.Keys.Distinct.{QueueKeys, AreDistinct, keys_of, keys_of-AreDistinct}
use laravel_queue_go.Queue.Scripts.{
  lua_push, lua_later, lua_pop, lua_release, lua_delete, lua_migrate,
}
use laravel_queue_go.Queue.Scripts.Copies.{copies, waiting-lpop, scheduled-lpop}
use laravel_queue_go.Queue.Scripts.Counts.{
  copies-push, copies-later, copies-pop, copies-release, copies-delete,
}
use laravel_queue_go.Queue.Scripts.Migrate.{migrate_moves, scheduled-migrate}
use laravel_queue_go.Queue.Scripts.Sorted.{
  AllSorted, lpop-AllSorted, lua_push-AllSorted, lua_later-AllSorted, lua_pop-AllSorted,
  lua_release-AllSorted, lua_delete-AllSorted, lua_migrate-AllSorted,
}

-- One atomic step of a client. `wait` is a BLPOP that takes an entry off the notify list.
pub data Call : Type 0 where
  push : Bytes → Call
  later : ℤ → Bytes → Call
  pop : ℤ → Call
  wait : Call
  delete : Bytes → Call
  release : Bytes → ℤ → Call
  migrate_delayed migrate_reserved : ℤ → ℤ → Call

-- The call acknowledges the payload.
unfoldable pub deletes : Bytes → Call → Bool
deletes x (delete p) = p =b x
deletes x _ = false

abbrev pub NoneDeletes : Bytes → List Call → Type 0
NoneDeletes x [] = Unit
NoneDeletes x (c ∷ cs) = (deletes x c ≡ false) × NoneDeletes x cs

module _ (R : Redis) (k : QueueKeys) where
  open R use {Db, lpop}

  unfoldable pub run : Call → Db → Db
  run (push p) d = lua_push R k.ready k.notify p d
  run (later t p) d = lua_later R k.delayed k.notify t p d
  run (pop t) d = (lua_pop R k.ready k.reserved t d).1
  run wait d = (lpop k.notify d).1
  run (delete p) d = lua_delete R k.reserved p d
  run (release p t) d = lua_release R k.delayed k.reserved p t d
  run (migrate_delayed now batch) d = (lua_migrate R k.delayed k.ready k.notify now batch d).1
  run (migrate_reserved now batch) d = (lua_migrate R k.reserved k.ready k.notify now batch d).1

  unfoldable pub run_all : List Call → Db → Db
  unfolding run
  run_all [] d = d
  run_all (c ∷ cs) d = run_all cs (run c d)

  pub run-AllSorted : (c : Call) (d : Db) → AllSorted R d → AllSorted R (run c d)
  unfolding run
  run-AllSorted (push p) d h = lua_push-AllSorted R _ _ p d h
  run-AllSorted (later t p) d h = lua_later-AllSorted R _ _ t p d h
  run-AllSorted (pop t) d h = lua_pop-AllSorted R _ _ t d h
  run-AllSorted wait d h = lpop-AllSorted R _ d h
  run-AllSorted (delete p) d h = lua_delete-AllSorted R _ p d h
  run-AllSorted (release p t) d h = lua_release-AllSorted R _ _ p t d h
  run-AllSorted (migrate_delayed now batch) d h = lua_migrate-AllSorted R _ _ _ now batch d h
  run-AllSorted (migrate_reserved now batch) d h = lua_migrate-AllSorted R _ _ _ now batch d h

  module _ (apart : AreDistinct k) (x : Bytes) where
    copies-wait : (d : Db) → copies R k x (lpop k.notify d).1 ≡ copies R k x d
    unfolding copies
    copies-wait d = simp (waiting-lpop R, scheduled-lpop R, apart.notify-ready)

    copies-migrate_delayed :
        (now b : ℤ) (d : Db)
        → AllSorted R d
        → copies R k x (lua_migrate R k.delayed k.ready k.notify now b d).1 ≡ copies R k x d
    unfolding copies
    copies-migrate_delayed now b d h = omega (
      arith,
      migrate_moves R k.ready k.notify apart.notify-ready k.delayed x now b d (h k.delayed),
      scheduled-migrate R k.ready k.notify apart.notify-ready k.delayed k.reserved x now b d
          apart.delayed-reserved,
    )

    copies-migrate_reserved :
        (now b : ℤ) (d : Db)
        → AllSorted R d
        → copies R k x (lua_migrate R k.reserved k.ready k.notify now b d).1 ≡ copies R k x d
    unfolding copies
    copies-migrate_reserved now b d h = omega (
      arith,
      migrate_moves R k.ready k.notify apart.notify-ready k.reserved x now b d (h k.reserved),
      scheduled-migrate R k.ready k.notify apart.notify-ready k.reserved k.delayed x now b d
          apart.reserved-delayed,
    )

    pub run-Held :
        (c : Call) (d : Db)
        → AllSorted R d
        → deletes x c ≡ false
        → 1 ≤ copies R k x d
        → 1 ≤ copies R k x (run c d)
    unfolding run deletes
    run-Held (push p) d _ _ h = omega (arith, copies-push R k apart x p d)
    run-Held (later t p) d _ _ h =
        let after = copies-later R k apart x p t d in unfold copies in ground (arith, after)
    run-Held (pop t) d _ _ h = (copies-pop R k apart t d x).1 h
    run-Held wait d _ _ h = omega (arith, copies-wait d)
    run-Held (delete p) d _ e h =
        let after = copies-delete R k apart x p d in unfold copies in ground (arith, after)
    run-Held (release p t) d _ _ h =
        let after = copies-release R k apart x p t d in unfold copies in ground (arith, after)
    run-Held (migrate_delayed now b) d s _ h = omega (arith, copies-migrate_delayed now b d s)
    run-Held (migrate_reserved now b) d s _ h = omega (arith, copies-migrate_reserved now b d s)

    run_all-Held :
        (cs : List Call) (d : Db)
        → AllSorted R d
        → NoneDeletes x cs
        → 1 ≤ copies R k x d
        → 1 ≤ copies R k x (run_all cs d)
    unfolding run_all
    run_all-Held [] d _ _ h = h
    run_all-Held (c ∷ cs) d s (n, ns) h =
        run_all-Held cs (run c d) (run-AllSorted c d s) ns (run-Held c d s n h)

-- A payload that stands in a queue, ready, delayed or reserved, stands there after any sequence of
-- calls of any clients in which no call deletes it: pops, releases, migrations and payloads put on
-- the queue lose nothing, whatever their order, times and batch sizes.
pub no_payload_lost :
    (R : Redis) (prefix queue x : Bytes) (cs : List Call) (d : R.Db)
    → AllSorted R d
    → NoneDeletes x cs
    → 1 ≤ copies R (keys_of prefix queue) x d
    → 1 ≤ copies R (keys_of prefix queue) x (run_all R (keys_of prefix queue) cs d)
no_payload_lost R prefix queue x cs d sorted none held =
    run_all-Held R (keys_of prefix queue) (keys_of-AreDistinct prefix queue) x cs d sorted none held
