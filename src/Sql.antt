-- ===== src/Sql.antt =====
-- What pkg/batch/repository.go and pkg/failed/database.go rely on of an SQL database and of
-- database/sql: one table, the statements they run on it, and how a call ends.
pub mod Memory
pub mod Laws
use laravel_queue_go.Prelude.{
  ℕ, suc, ◌≤◌, ◌<◌, ◌≡◌, Bool, Option, none, some, List, [], ◌∷◌, ◌++◌, map, length, not,
  if◌then◌else◌,
}
use laravel_queue_go.Prelude.Int.{ℤ}
use laravel_queue_go.Prelude.Result.{Result, ok, err, panic, out_of_fuel}
use laravel_queue_go.Middleware.Lock.{Link, up, refused, reply_lost}

abbrev pub filter : {A : Type 0} → (A → Bool) → List A → List A
filter p [] = []
filter p (x ∷ xs) = if p x then x ∷ filter p xs else filter p xs

abbrev pub update_if : {A : Type 0} → (A → Bool) → (A → A) → A → A
update_if p f x = if p x then f x else x

-- The assignments of a SET read the columns as they were, as in standard SQL, or each reads those
-- that stand before it as already assigned, as in MySQL.
pub data SetOrder : Type 0 where
  at_once left_to_right : SetOrder

-- `rows` is the table in the order of insertion. `insert` gives a row the next number of its
-- AUTO_INCREMENT column, which no later row gets again; `delete` tells how many rows it removed.
pub record Table (Row : Type 0) : Type 1 where
  pub Db : Type 0
  pub rows : Db → List Row
  pub next_id : Db → ℕ
  pub set_order : SetOrder
  pub insert : (ℕ → Row) → Db → Db
  pub select : (Row → Bool) → Db → List Row
  pub update : (Row → Bool) → (Row → Row) → Db → Db
  pub delete : (Row → Bool) → Db → ℕ × Db
  pub rows-insert : (f : ℕ → Row) (d : Db) → rows (insert f d) ≡ rows d ++ f (next_id d) ∷ []
  pub next_id-insert : (f : ℕ → Row) (d : Db) → next_id d < next_id (insert f d)
  pub select-rows : (p : Row → Bool) (d : Db) → select p d ≡ filter p (rows d)
  pub rows-update :
      (p : Row → Bool) (f : Row → Row) (d : Db) → rows (update p f d) ≡ map (update_if p f) (rows d)
  pub next_id-update :
      (p : Row → Bool) (f : Row → Row) (d : Db) → next_id (update p f d) ≡ next_id d
  pub rows-delete :
      (p : Row → Bool) (d : Db) → rows (delete p d).1 ≡ filter (λ r. not (p r)) (rows d)
  pub next_id-delete : (p : Row → Bool) (d : Db) → next_id (delete p d).1 ≡ next_id d
  pub delete-result : (p : Row → Bool) (d : Db) → (delete p d).0 ≡ length (filter p (rows d))

-- What the code sees of the world: the clock, the next call's fate, the database. `pass` is what
-- happens between this call and the next, the other clients' statements among it. `no_rows` is
-- sql.ErrNoRows, `wrap` fmt.Errorf with a text, a colon and the error.
pub record Site {Row : Type 0} (T : Table Row) (E W : Type 0) : Type 0 where
  pub time : W → ℤ
  pub link : W → Link E
  pub db : W → T.Db
  pub put_db : T.Db → W → W
  pub pass : W → W
  pub no_rows : E
  pub wrap : List ℕ → E → E

module _ {Row : Type 0} (T : Table Row) {E W : Type 0} (site : Site T E W) where
  unfoldable pub exec_link : {A : Type 0} → Link E → A × T.Db → W → Result E A × W
  exec_link up (a, d) s = (ok a, site.pass (site.put_db d s))
  exec_link (refused e) (a, d) s = (err e, site.pass s)
  exec_link (reply_lost e) (a, d) s = (err e, site.pass (site.put_db d s))

  -- ExecContext.
  unfoldable pub exec : {A : Type 0} → (T.Db → A × T.Db) → W → Result E A × W
  unfolding exec_link
  exec f s = exec_link (site.link s) (f (site.db s)) s

  -- QueryContext and QueryRowContext.
  unfoldable pub query : (Row → Bool) → W → Result E (List Row) × W
  unfolding exec
  query p s = exec (λ d. (T.select p d, d)) s

  abbrev pub first : List Row → Result E Row
  first [] = err site.no_rows
  first (r ∷ rs) = ok r

  -- An error with the text that fmt.Errorf puts before it.
  abbrev pub labelled : {A : Type 0} → List ℕ → Result E A × W → Result E A × W
  labelled text (ok a, s) = (ok a, s)
  labelled text (err e, s) = (err (site.wrap text e), s)
  labelled text (panic, s) = (panic, s)
  labelled text (out_of_fuel, s) = (out_of_fuel, s)

  -- `if err != nil { return err }`.
  abbrev pub and_then : {A B : Type 0} → (A → W → Result E B × W) → Result E A × W → Result E B × W
  and_then f (ok a, s) = f a s
  and_then f (err e, s) = (err e, s)
  and_then f (panic, s) = (panic, s)
  and_then f (out_of_fuel, s) = (out_of_fuel, s)
