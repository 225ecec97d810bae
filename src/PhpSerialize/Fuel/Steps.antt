-- ===== src/PhpSerialize/Fuel/Steps.antt =====
-- What each read that does not recurse leaves of the input.
use laravel_queue_go.Prelude.{
  ◌-◌, true, false, if◌then◌else◌, ℕ, zero, suc, ◌+◌, ◌≤◌, ◌≡◌, ◌≢◌, refl, Bool, Option, none, some,
  [], ◌∷◌, length, arith, length-drop, ap,
}
use laravel_queue_go.Prelude.Bytes.{Bytes}
use laravel_queue_go.Prelude.Int.{ℤ, pos, negsuc}
use laravel_queue_go.Prelude.Result.{Result, ok, err, panic, out_of_fuel, bind}
use laravel_queue_go.PhpSerialize.Value.{Value}
use laravel_queue_go.PhpSerialize.Decoder.{
  Cursor, Read, DecodeError, ◌>>=◌, ◌>>◌, pure, or_fail, strip, expect, read_until, skip, length_of,
  read_length, take_text, remember, open_slot, close_slot, make_slice, deref, read_byte, before,
}

-- The run kept within its fuel, and `P` holds of its result if it has one.
pub data Ensures {A : Type 0} (P : A → Type 0) : Result DecodeError A → Type 0 where
  holds : {a : A} → P a → Ensures P (ok a)
  failed : {e : DecodeError} → Ensures P (err e)
  crashed : Ensures P panic

pub Ensures-out_of_fuel :
    {A : Type 0} {P : A → Type 0} {r : Result DecodeError A} → Ensures P r → r ≢ out_of_fuel
Ensures-out_of_fuel (holds h) = cc
Ensures-out_of_fuel failed = cc
Ensures-out_of_fuel crashed = cc

pub Ensures-imp :
    {A : Type 0} {P Q : A → Type 0} {r : Result DecodeError A}
    → Ensures P r
    → ((a : A) → P a → Q a)
    → Ensures Q r
Ensures-imp (holds {a} h) k = holds (k a h)
Ensures-imp failed k = failed
Ensures-imp crashed k = crashed

pub Ensures-bind :
    {A B : Type 0} {P : A → Type 0} {Q : B → Type 0} {r : Result DecodeError A}
    {f : A → Result DecodeError B}
    → Ensures P r
    → ((a : A) → P a → Ensures Q (f a))
    → Ensures Q (bind r f)
Ensures-bind (holds {a} h) k = k a h
Ensures-bind failed k = failed
Ensures-bind crashed k = crashed

-- At least k bytes of the input at `st` are consumed.
abbrev pub Shrinks : {A : Type 0} → ℕ → Cursor → Result DecodeError (A × Cursor) → Type 0
Shrinks k st = Ensures (λ r. length r.1.rest + k ≤ length st.rest)

-- A read that consumes at least k bytes wherever it succeeds on an input of at most b bytes.
pub record Eats {A : Type 0} (b k : ℕ) (m : Read A) : Type 0 where
  pub apply : (st : Cursor) → length st.rest ≤ b → Shrinks k st (m st)

weaken :
    {A : Type 0} (st : Cursor) {r : Result DecodeError (A × Cursor)} (k n : ℕ)
    → Shrinks 0 st r
    → length st.rest + k ≤ n
    → Ensures (λ r. length r.1.rest + k ≤ n) r
weaken st k n (holds p) le = holds (omega arith)
weaken st k n failed le = failed
weaken st k n crashed le = crashed

pub Eats-bind :
    {A B : Type 0} {b k : ℕ} {m : Read A} {f : A → Read B}
    → Eats b k m
    → ((a : A) → k ≤ b → Eats (b - k) 0 (f a))
    → Eats b k (m >>= f)
Eats-bind {k = k} h g = record {
  apply = λ st small.
      Ensures-bind (h.apply st small)
        λ (a, st') le. weaken st' k _ ((g a (omega arith)).apply st' (omega arith)) le;
}

pub Eats-mono : {A : Type 0} {b b' k : ℕ} {m : Read A} → Eats b k m → b' ≤ b → Eats b' k m
Eats-mono h le = record { apply = λ st small. h.apply st (omega arith) }

pub Eats-zero : {A : Type 0} {b k : ℕ} {m : Read A} → Eats b k m → Eats b 0 m
Eats-zero h = record { apply = λ st small. Ensures-imp (h.apply st small) λ r le. omega arith }

strip-length : (lit s : Bytes) {t : Bytes} → strip lit s ≡ some t → length t + length lit ≤ length s
unfolding strip
strip-length [] s h = ground arith
strip-length (c ∷ lit) [] h = cc
strip-length (c ∷ lit) (x ∷ s) {t} h = ground (arith, strip-length lit s {t = t})

pub expect-Shrinks : (lit : Bytes) (st : Cursor) → Shrinks (length lit) st (expect lit st)
unfolding expect
expect-Shrinks lit st = go (strip lit st.rest) refl
  where
    go :
        (o : Option Bytes)
        → strip lit st.rest ≡ o
        → Shrinks (length lit) st (elim o [
          | none ↦ err (DecodeError.expected lit)
          | some s ↦ ok (tt, record st { rest = s; pos = st.pos + length lit })
        ])
    go none e = failed
    go (some s) e = holds (strip-length lit st.rest e)

read_until-Shrinks : (c : ℕ) (st : Cursor) → Shrinks 0 st (read_until c st)
unfolding read_until
read_until-Shrinks c st = holds (omega (arith, length-drop (length (before c st.rest)) st.rest))

skip-Shrinks : (st : Cursor) → Shrinks 0 st (skip st)
unfolding skip
skip-Shrinks st = holds (omega (arith, length-drop 1 st.rest))

or_fail-Shrinks :
    {A : Type 0} (o : Option A) (e : DecodeError) (st : Cursor) → Shrinks 0 st (or_fail o e st)
unfolding or_fail
or_fail-Shrinks none e st = failed
or_fail-Shrinks (some a) e st = holds (omega arith)

length_of-Shrinks : (s : Bytes) (st : Cursor) → Shrinks 0 st (length_of s st)
unfolding length_of
length_of-Shrinks [] st = failed
length_of-Shrinks (c ∷ s) st = or_fail-Shrinks _ _ st

pure-Shrinks : {A : Type 0} (a : A) (st : Cursor) → Shrinks 0 st (ok (a, st))
pure-Shrinks a st = holds (omega arith)

Ensures-if :
    {A : Type 0} {P : A → Type 0} (b : Bool) {x y : Result DecodeError A}
    → Ensures P x
    → Ensures P y
    → Ensures P (if b then x else y)
Ensures-if true hx hy = hx
Ensures-if false hx hy = hy

take_text-Shrinks : (z : ℤ) (st : Cursor) → Shrinks 0 st (take_text z st)
unfolding take_text
take_text-Shrinks (negsuc n) st = crashed
take_text-Shrinks (pos n) st =
    Ensures-if _ crashed (Ensures-if _ failed (holds (omega (arith, length-drop n st.rest))))

remember-Shrinks : (v : Value) (st : Cursor) → Shrinks 0 st (remember v st)
unfolding remember
remember-Shrinks v st = holds (omega arith)

open_slot-Shrinks : (st : Cursor) → Shrinks 0 st (open_slot st)
unfolding open_slot
open_slot-Shrinks st = holds (omega arith)

close_slot-Shrinks : (i : ℕ) (v : Value) (st : Cursor) → Shrinks 0 st (close_slot i v st)
unfolding close_slot
close_slot-Shrinks i v st = holds (omega arith)

make_slice-Shrinks : (z : ℤ) (st : Cursor) → Shrinks 0 st (make_slice z st)
unfolding make_slice
make_slice-Shrinks (negsuc n) st = crashed
make_slice-Shrinks (pos n) st = Ensures-if _ (holds (omega arith)) crashed

deref-Shrinks : (z : ℤ) (st : Cursor) → Shrinks 0 st (deref z st)
unfolding deref
deref-Shrinks (negsuc n) st = failed
deref-Shrinks (pos zero) st = failed
deref-Shrinks (pos (suc i)) st = or_fail-Shrinks _ _ st

read_byte-Shrinks : (st : Cursor) → Shrinks 0 st (read_byte st)
unfolding read_byte
read_byte-Shrinks st =
    elim st.rest
        as (λ s.
          st.rest ≡ s
          → Shrinks 0 st (elim s [
            | [] ↦ err DecodeError.unexpected_end
            | c ∷ s ↦ ok (c, record st { rest = s; pos = st.pos + 1 })
          ])) [ [] ↦ λ e. failed | c ∷ s ↦ λ e. holds (omega (arith, ap length e)) ]
      refl

pub expect-Eats : {b : ℕ} → (lit : Bytes) → Eats b (length lit) (expect lit)
expect-Eats lit = record { apply = λ st _. expect-Shrinks lit st }

pub read_until-Eats : {b : ℕ} → (c : ℕ) → Eats b 0 (read_until c)
read_until-Eats c = record { apply = λ st _. read_until-Shrinks c st }

pub skip-Eats : {b : ℕ} → Eats b 0 skip
skip-Eats = record { apply = λ st _. skip-Shrinks st }

pub length_of-Eats : {b : ℕ} → (s : Bytes) → Eats b 0 (length_of s)
length_of-Eats s = record { apply = λ st _. length_of-Shrinks s st }

pub take_text-Eats : {b : ℕ} → (z : ℤ) → Eats b 0 (take_text z)
take_text-Eats z = record { apply = λ st _. take_text-Shrinks z st }

pub remember-Eats : {b : ℕ} → (v : Value) → Eats b 0 (remember v)
remember-Eats v = record { apply = λ st _. remember-Shrinks v st }

pub open_slot-Eats : {b : ℕ} → Eats b 0 open_slot
open_slot-Eats = record { apply = λ st _. open_slot-Shrinks st }

pub close_slot-Eats : {b : ℕ} → (i : ℕ) (v : Value) → Eats b 0 (close_slot i v)
close_slot-Eats i v = record { apply = λ st _. close_slot-Shrinks i v st }

pub make_slice-Eats : {b : ℕ} → (z : ℤ) → Eats b 0 (make_slice z)
make_slice-Eats z = record { apply = λ st _. make_slice-Shrinks z st }

pub deref-Eats : {b : ℕ} → (z : ℤ) → Eats b 0 (deref z)
deref-Eats z = record { apply = λ st _. deref-Shrinks z st }

pub read_byte-Eats : {b : ℕ} → Eats b 0 read_byte
read_byte-Eats = record { apply = λ st _. read_byte-Shrinks st }

-- A literal, where it does not matter that it is consumed.
pub Eats-expect :
    {B : Type 0} {b : ℕ} {m : Read B} (lit : Bytes) → Eats (b - 0) 0 m → Eats b 0 (expect lit >> m)
Eats-expect lit h = Eats-bind (Eats-zero (expect-Eats lit)) λ _ _. h

pub or_fail-Eats : {b : ℕ} → {A : Type 0} (o : Option A) (e : DecodeError) → Eats b 0 (or_fail o e)
or_fail-Eats o e = record { apply = λ st _. or_fail-Shrinks o e st }

pub pure-Eats : {b : ℕ} → {A : Type 0} (a : A) → Eats b 0 (pure a)
pure-Eats a = record { apply = λ st _. pure-Shrinks a st }

pub read_length-Eats : {b : ℕ} → Eats b 0 read_length
unfolding read_length
read_length-Eats = Eats-bind (read_until-Eats _) λ s _. length_of-Eats s

-- One read after another whose result is not used.
infixr 5 ◌⨟◌
abbrev pub ◌⨟◌ :
    {A B : Type 0} {b k : ℕ} {m : Read A} {n : Read B}
    → Eats b k m
    → Eats (b - k) 0 n
    → Eats b k (m >> n)
h ⨟ g = Eats-bind h λ _ _. g
