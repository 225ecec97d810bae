-- ===== src/Middleware/Counter.antt =====
-- What pkg/middleware/rate_limit.go and throttle.go rely on of Redis: numbers under keys that expire.
-- Times are nanoseconds.
pub mod Memory
use laravel_queue_go.Prelude.{
  ℕ, ◌+◌, ◌*◌, ◌≤◌, ◌≡◌, Bool, true, false, Option, none, some, leb, ◌==◌, if◌then◌else◌,
}
use laravel_queue_go.Prelude.Bytes.{Bytes, ◌=b◌}
use laravel_queue_go.Prelude.Int.{ℤ, pos, negsuc, ◌+ℤ◌}

pub record Entry : Type 0 where
  pub value : ℤ
  pub deadline : Option ℕ

-- A missing key counts from 0, without a deadline; one that is there keeps its deadline.
abbrev pub add_to : ℤ → Option Entry → Entry
add_to n none = record { value = n; deadline = none }
add_to n (some e) = record e { value = e.value +ℤ n }

abbrev pub set_deadline : ℕ → Option Entry → Option Entry
set_deadline t none = none
set_deadline t (some e) = some (record e { deadline = some t })

-- What is left at a time of a number with a deadline.
abbrev pub keep : ℕ → ℤ → Option ℕ → Option Entry
keep u v none = some (record { value = v; deadline = none })
keep u v (some t) = if leb t u then none else some (record { value = v; deadline = some t })

abbrev pub live : ℕ → Option Entry → Option Entry
live u none = none
live u (some e) = keep u e.value e.deadline

-- `view` is what is under a key at a time. `add` is INCR and DECR, `expire` EXPIRE with the time at
-- which the key goes; at once, where that is not later.
pub record CounterStore : Type 1 where
  pub Db : Type 0
  pub view : ℕ → Db → Bytes → Option Entry
  pub add : ℕ → Bytes → ℤ → Db → ℤ × Db
  pub expire : ℕ → Bytes → ℕ → Db → Db
  pub del : Bytes → Db → Db
  pub add-result :
      (t : ℕ) (k : Bytes) (n : ℤ) (d : Db) → (add t k n d).0 ≡ (add_to n (view t d k)).value
  pub view-add :
      (t : ℕ) (k : Bytes) (n : ℤ) (d : Db) (j : Bytes)
      → view t (add t k n d).1 j ≡ (if k =b j then some (add_to n (view t d k)) else view t d j)
  pub view-expire :
      (t : ℕ) (k : Bytes) (u : ℕ) (d : Db) (j : Bytes)
      → view t (expire t k u d) j
        ≡ (if k =b j then live t (set_deadline u (view t d k)) else view t d j)
  pub view-del :
      (t : ℕ) (k : Bytes) (d : Db) (j : Bytes)
      → view t (del k d) j ≡ (if k =b j then none else view t d j)
  pub view-later : (t u : ℕ) (d : Db) (j : Bytes) → t ≤ u → view u d j ≡ live u (view t d j)

-- The number, 0 for a missing key.
abbrev pub value_of : Option Entry → ℤ
value_of none = pos 0
value_of (some e) = e.value

abbrev pub is_one : ℤ → Bool
is_one (pos n) = n == 1
is_one (negsuc n) = false
