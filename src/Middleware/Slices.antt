-- ===== src/Middleware/Slices.antt =====
-- Go slices of middleware and the arrays behind them, for the calls of append in
-- pkg/middleware/pipeline.go and pkg/queue/manager.go: slices of one array see one another's writes.
pub mod Laws
use laravel_queue_go.Prelude.{
  ℕ, suc, ◌+◌, ◌≤◌, Bool, true, false, List, [], ◌∷◌, ◌++◌, length, take, drop, ◌==◌, leb,
  if◌then◌else◌,
}

-- The pointer, the length and the capacity.
pub record Slice : Type 0 where
  pub array : ℕ
  pub len : ℕ
  pub cap : ℕ

-- An array holds what was written into it from its start on; `next` is the first pointer not given
-- out.
pub record Heap (A : Type 0) : Type 0 where
  pub next : ℕ
  pub cells : ℕ → List A

-- What the runtime chooses for the capacity of a new array: enough, by a rule that Go leaves open.
pub record Growth : Type 0 where
  pub capacity : ℕ → ℕ → ℕ
  pub enough : (cap needed : ℕ) → needed ≤ capacity cap needed

module _ {A : Type 0} where
  unfoldable pub contents : Heap A → Slice → List A
  contents h s = take s.len (h.cells s.array)

  unfoldable pub write_at : ℕ → List A → List A → List A
  write_at i xs cells = take i cells ++ (xs ++ drop (i + length xs) cells)

  unfoldable pub put_cells : ℕ → List A → Heap A → Heap A
  put_cells p cells h = record h { cells = λ q. if p == q then cells else h.cells q }

  in_place : Slice → List A → Heap A → Slice × Heap A
  unfolding write_at put_cells
  in_place s xs h = (
    record s { len = s.len + length xs },
    put_cells s.array (write_at s.len xs (h.cells s.array)) h,
  )

  moved : Growth → Slice → List A → Heap A → Slice × Heap A
  unfolding contents put_cells
  moved g s xs h = (
    record { array = h.next; len = s.len + length xs; cap = g.capacity s.cap (s.len + length xs) },
    put_cells h.next (contents h s ++ xs) (record h { next = suc h.next }),
  )

  -- `append(s, xs...)`: in place where the capacity is enough, else into a new array.
  unfoldable pub append : Growth → Slice → List A → Heap A → Slice × Heap A
  unfolding in_place moved
  append g s xs h = if leb (s.len + length xs) s.cap then in_place s xs h else moved g s xs h
