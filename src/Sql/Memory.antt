-- ===== src/Sql/Memory.antt =====
-- A table in memory, for runs, with the SET of standard SQL or of MySQL.
use laravel_queue_go.Prelude.{ℕ, suc, refl, List, [], ◌∷◌, ◌++◌, map, length, not, arith}
use laravel_queue_go.Sql.{Table, SetOrder, at_once, filter, update_if}

pub record Stored (Row : Type 0) : Type 0 where
  pub content : List Row
  pub next : ℕ

-- The auto-increment column starts at 1.
abbrev pub empty_table : {Row : Type 0} → Stored Row
empty_table = record { content = []; next = 1 }

abbrev pub memory_of : SetOrder → (Row : Type 0) → Table Row
memory_of order Row = record {
  set_order = order;
  Db = Stored Row;
  rows = λ d. d.content;
  next_id = λ d. d.next;
  insert = λ f d. record { content = d.content ++ f d.next ∷ []; next = suc d.next };
  select = λ p d. filter p d.content;
  update = λ p f d. record d { content = map (update_if p f) d.content };
  delete = λ p d.
      (length (filter p d.content), record d { content = filter (λ r. not (p r)) d.content });
  rows-insert = λ f d. refl;
  next_id-insert = λ f d. omega arith;
  select-rows = λ p d. refl;
  rows-update = λ p f d. refl;
  next_id-update = λ p f d. refl;
  rows-delete = λ p d. refl;
  next_id-delete = λ p d. refl;
  delete-result = λ p d. refl;
}

abbrev pub memory : (Row : Type 0) → Table Row
memory Row = memory_of at_once Row
