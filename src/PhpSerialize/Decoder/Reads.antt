-- ===== src/PhpSerialize/Decoder/Reads.antt =====
-- The decoder's state and the reads that do not recurse: expect, readUntil, readLength, the slices
-- of the data and the reference table.
use laravel_queue_go.Prelude.{
  ℕ, zero, suc, ◌+◌, ◌^◌, true, false, Option, none, some, List, [], ◌∷◌, ◌++◌, length, get_elem?,
  set, take, drop, ltb, leb, ◌==◌, if◌then◌else◌,
}
use laravel_queue_go.Prelude.Bytes.{Bytes}
use laravel_queue_go.Prelude.Int.{ℤ, pos, negsuc, max_int64}
use laravel_queue_go.Prelude.Result.{Result, ok, err, panic, bind}
use laravel_queue_go.Strconv.{parse_int}
use laravel_queue_go.PhpSerialize.Value.{Value, back_ref}

pub record Cursor : Type 0 where
  pub rest : Bytes
  pub pos : ℕ
  pub refs : List Value

pub data DecodeError : Type 0 where
  unexpected_end invalid_int invalid_float empty_length invalid_length length_exceeds : DecodeError
  invalid_reference reference_out_of_range missing_colon : DecodeError
  expected : Bytes → DecodeError
  unknown_type unexpected_key_type : ℕ → DecodeError

abbrev pub Read {ℓ} : Type ℓ → Type ℓ
Read A = Cursor → Result DecodeError (A × Cursor)

infixl 5 ◌>>=◌ ◌>>◌
abbrev pub ◌>>=◌ {ℓ κ} : {A : Type ℓ} {B : Type κ} → Read A → (A → Read B) → Read B
◌>>=◌ m f st = bind (m st) λ (a, st'). f a st'

abbrev pub ◌>>◌ {ℓ κ} : {A : Type ℓ} {B : Type κ} → Read A → Read B → Read B
m >> k = m >>= λ _. k

abbrev pub pure {ℓ} : {A : Type ℓ} → A → Read A
pure a st = ok (a, st)

abbrev pub fail {ℓ} : {A : Type ℓ} → DecodeError → Read A
fail e st = err e

unfoldable pub strip : Bytes → Bytes → Option Bytes
strip [] s = some s
strip (c ∷ lit) [] = none
strip (c ∷ lit) (x ∷ s) = elim (x == c) [ true ↦ strip lit s | false ↦ none ]

-- `if !d.expect(lit) { return error }`.
unfoldable pub expect : Bytes → Read (Unit {0})
unfolding strip
expect lit st = elim (strip lit st.rest) [
  | none ↦ err (expected lit)
  | some s ↦ ok (tt, record st { rest = s; pos = st.pos + length lit })
]

-- The bytes before the first c, or all of them.
unfoldable pub before : ℕ → Bytes → Bytes
before c [] = []
before c (x ∷ s) = let more = before c s in if x == c then [] else x ∷ more

-- d.readUntil(c).
unfoldable pub read_until : ℕ → Read Bytes
unfolding before
read_until c st =
    let text = before c st.rest in
    ok (text, record st { rest = drop (length text) st.rest; pos = st.pos + length text })

-- `d.pos++`.
unfoldable pub skip : Read (Unit {0})
skip st = ok (tt, record st { rest = drop 1 st.rest; pos = st.pos + 1 })

unfoldable pub or_fail {ℓ} : {A : Type ℓ} → Option A → DecodeError → Read A
or_fail none e = fail e
or_fail (some a) e = pure a

unfoldable pub length_of : Bytes → Read ℤ
unfolding or_fail
length_of [] = fail empty_length
length_of (c ∷ s) = or_fail (parse_int (c ∷ s)) invalid_length

unfoldable pub read_length : Read ℤ
unfolding read_until length_of
read_length = do text ← read_until b':'; length_of text

-- The check `d.pos+n > len(d.data)` and the slice `d.data[d.pos : d.pos+n]`: with a negative n, or
-- where the sum wraps, the check passes and the slice panics.
unfoldable pub take_text : ℤ → Read Bytes
take_text (negsuc n) st = panic
take_text (pos n) st =
    if ltb max_int64 (st.pos + n)
    then panic
    else if ltb (length st.rest) n
    then err length_exceeds
    else ok (take n st.rest, record st { rest = drop n st.rest; pos = st.pos + n })

-- `d.refs = append(d.refs, v)`.
unfoldable pub remember : Value → Read (Unit {0})
remember v st = ok (tt, record st { refs = st.refs ++ v ∷ [] })

-- The same for a container that is still empty; the result is its slot.
unfoldable pub open_slot : Read ℕ
open_slot st =
    let slot = length st.refs in ok (slot, record st { refs = st.refs ++ back_ref slot ∷ [] })

-- The container in its slot is filled.
unfoldable pub close_slot : ℕ → Value → Read Value
close_slot slot v st = ok (v, record st { refs = set st.refs slot v })

-- make([]any, 0, n) panics at a negative n and where n items of 16 bytes exceed the address space
-- of 2^48 bytes. Between that and the memory there is, where the run-time kills the process, it is
-- taken to succeed.
abbrev pub max_items : ℕ
max_items = 2 ^ 44

unfoldable pub make_slice : ℤ → Read ℕ
make_slice (negsuc n) st = panic
make_slice (pos n) st = if leb n max_items then ok (n, st) else panic

-- `for i := 0; i < n; i++` makes no round at a negative n.
abbrev pub rounds : ℤ → ℕ
rounds (pos n) = n
rounds (negsuc n) = 0

-- d.refs[idx-1] with its range check.
unfoldable pub deref : ℤ → Read Value
unfolding or_fail
deref (negsuc n) st = err reference_out_of_range
deref (pos zero) st = err reference_out_of_range
deref (pos (suc i)) st = or_fail (get_elem? st.refs i) reference_out_of_range st
