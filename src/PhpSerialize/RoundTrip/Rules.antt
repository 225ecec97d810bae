-- ===== src/PhpSerialize/RoundTrip/Rules.antt =====
-- How a read runs on an input that begins with what it looks for.
use laravel_queue_go.Prelude.{
  ℕ, ◌+◌, ◌≤◌, ◌≡◌, refl, sym, ◌∙◌, ap, true, false, Option, some, [], ◌∷◌, ◌++◌, length, take,
  drop, length-append, take-length-append, drop-length-append, arith, ltb, leb, subst,
}
use laravel_queue_go.Prelude.Bytes.{Bytes}
use laravel_queue_go.Prelude.Int.{ℤ, pos, max_int64, InInt64}
use laravel_queue_go.Prelude.Result.{Result, ok, bind}
use laravel_queue_go.Strconv.{format_uint, format_int, parse_int}
use laravel_queue_go.Strconv.RoundTrip.{
  Lacks, parse_int-format, parse_int-format_uint, format_uint-Lacks, format_int-Lacks,
}
use laravel_queue_go.PhpSerialize.Value.{Value}
use laravel_queue_go.PhpSerialize.Decoder.{
  Cursor, Read, DecodeError, ◌>>=◌, pure, or_fail, strip, expect, before, read_until, skip,
  length_of, read_length, take_text, remember, open_slot, close_slot, make_slice, max_items,
  read_byte,
}

-- `input` is left, and ends within the first L bytes of the data.
pub record At (L : ℕ) (input : Bytes) (st : Cursor) : Type 0 where
  pub left : st.rest ≡ input
  pub inside : st.pos + length input ≤ L

-- The result is `a`, with `rest` left.
pub data Gives {A : Type 0} (L : ℕ) (a : A) (rest : Bytes)
    : Result DecodeError (A × Cursor) → Type 0 where
  gives : {st : Cursor} → At L rest st → Gives L a rest (ok (a, st))

pub record Reads {A : Type 0} (L : ℕ) (m : Read A) (input : Bytes) (a : A) (rest : Bytes)
    : Type 0 where
  pub apply : (st : Cursor) → At L input st → Gives L a rest (m st)

Gives-bind :
    {A B : Type 0} {L : ℕ} {a : A} {b : B} {rest rest' : Bytes}
    {r : Result DecodeError (A × Cursor)} (f : A × Cursor → Result DecodeError (B × Cursor))
    → Gives L a rest r
    → ((st : Cursor) → At L rest st → Gives L b rest' (f (a, st)))
    → Gives L b rest' (bind r f)
Gives-bind f (gives {st} h) k = k st h

module _ {A B : Type 0} {L : ℕ} where
  pub Reads-bind :
      {m : Read A} (f : A → Read B) {a : A} {b : B} {i j k : Bytes}
      → Reads L m i a j
      → Reads L (f a) j b k
      → Reads L (m >>= f) i b k
  Reads-bind f h g = record {
    apply = λ st at. Gives-bind _ (h.apply st at) λ st' at'. g.apply st' at';
  }

pub Reads-input :
    {A : Type 0} {L : ℕ} {m : Read A} {i j k : Bytes} {a : A}
    → i ≡ j
    → Reads L m j a k
    → Reads L m i a k
Reads-input {L = L} {m = m} {k = k} {a = a} e h = subst (λ i. Reads L m i a k) (sym e) h

pub pure-Reads : {A : Type 0} {L : ℕ} {i : Bytes} (a : A) → Reads L (pure a) i a i
pure-Reads a = record { apply = λ st at. gives at }

strip-append : (lit s : Bytes) → strip lit (lit ++ s) ≡ some s
unfolding strip
strip-append [] s = refl
strip-append (c ∷ lit) s = ground (arith, strip-append lit s)

pub expect-Reads : {L : ℕ} {i : Bytes} (lit : Bytes) → Reads L (expect lit) (lit ++ i) tt i
unfolding expect
expect-Reads {i = i} lit = record {
  apply = λ st at.
      rw (ap (strip lit) at.left ∙ strip-append lit i, expect)
        (gives (record { left = refl; inside = omega (arith, at.inside, length-append lit i) }));
}

before-append : (c : ℕ) (s i : Bytes) → Lacks c s → before c (s ++ c ∷ i) ≡ s
unfolding before
before-append c [] i h = ground arith
before-append c (x ∷ s) i (h, hs) = ground (arith, before-append c s i hs)

pub read_until-Reads :
    {L : ℕ} (c : ℕ) (s i : Bytes) → Lacks c s → Reads L (read_until c) (s ++ c ∷ i) s (c ∷ i)
unfolding read_until
read_until-Reads c s i h = record {
  apply = λ st at. rw (ap (before c) at.left ∙ before-append c s i h) (
      gives (record {
        left = ap (drop (length s)) at.left ∙ drop-length-append s (c ∷ i);
        inside = omega (arith, at.inside, length-append s (c ∷ i));
      }));
}

pub skip-Reads : {L : ℕ} {c : ℕ} {i : Bytes} → Reads L skip (c ∷ i) tt i
unfolding skip
skip-Reads = record {
  apply = λ st at. gives (record { left = ap (drop 1) at.left; inside = omega (arith, at.inside) });
}

pub read_byte-Reads : {L : ℕ} {c : ℕ} {i : Bytes} → Reads L read_byte (c ∷ i) c i
unfolding read_byte
read_byte-Reads = record {
  apply = λ st at.
      rw (at.left, read_byte) (gives (record { left = refl; inside = omega (arith, at.inside) }));
}

-- With the whole data below 2^63 bytes no sum wraps, and what is there is taken.
pub take_text-Reads :
    {L : ℕ} (s i : Bytes) → L ≤ max_items → Reads L (take_text (pos (length s))) (s ++ i) s i
unfolding take_text
take_text-Reads {L} s i small = record {
  apply = λ st at.
      let fits : (ltb max_int64 (st.pos + length s) ≡ false)
          × (ltb (length st.rest) (length s) ≡ false) =
        (
          ground (arith, at.inside, length-append s i),
          ground (arith, ap length at.left, length-append s i),
        ) in
      let taken : take (length s) st.rest ≡ s =
        ap (take (length s)) at.left ∙ take-length-append s i in
      rw (fits.0, fits.1, taken)
        (gives (record {
          left = ap (drop (length s)) at.left ∙ drop-length-append s i;
          inside = omega (arith, at.inside, length-append s i);
        }));
}

pub remember-Reads : {L : ℕ} {i : Bytes} (v : Value) → Reads L (remember v) i tt i
unfolding remember
remember-Reads v = record { apply = λ st at. gives (record { left = at.left; inside = at.inside }) }

pub close_slot-Reads : {L : ℕ} {i : Bytes} (n : ℕ) (v : Value) → Reads L (close_slot n v) i v i
unfolding close_slot
close_slot-Reads n v = record {
  apply = λ st at. gives (record { left = at.left; inside = at.inside });
}

-- The slot depends on the reference table, so what follows is read for every slot.
pub open_slot-Reads :
    {L : ℕ} {B : Type 0} (f : ℕ → Read B) {b : B} {i j : Bytes}
    → ((n : ℕ) → Reads L (f n) i b j)
    → Reads L (open_slot >>= f) i b j
unfolding open_slot
open_slot-Reads f h = record {
  apply = λ st at. (h (length st.refs)).apply _ (record { left = at.left; inside = at.inside });
}

pub or_fail-Reads :
    {L : ℕ} {A : Type 0} {i : Bytes} {o : Option A} {a : A} (e : DecodeError)
    → o ≡ some a
    → Reads L (or_fail o e) i a i
unfolding or_fail
or_fail-Reads {L} {i = i} {a = a} e h =
    subst (λ o. Reads L (or_fail o e) i a i) (sym h) (pure-Reads a)

length_of-Reads :
    {L : ℕ} {i : Bytes} (s : Bytes) {z : ℤ} → parse_int s ≡ some z → Reads L (length_of s) i z i
unfolding length_of
length_of-Reads [] h = absurd (unfold parse_int in cc)
length_of-Reads (c ∷ s) h = or_fail-Reads _ h

pub read_length-Reads :
    {L : ℕ} (n : ℕ) (i : Bytes)
    → n ≤ max_int64
    → Reads L read_length (format_uint n ++ b':' ∷ i) (pos n) (b':' ∷ i)
unfolding read_length
read_length-Reads n i h =
    Reads-bind length_of
      (read_until-Reads b':' _ i (format_uint-Lacks b':' n (λ p. omega (arith, p))))
      (length_of-Reads _ (parse_int-format_uint n h))

pub read_length_int-Reads :
    {L : ℕ} (z : ℤ) (i : Bytes)
    → InInt64 z
    → Reads L read_length (format_int z ++ b':' ∷ i) z (b':' ∷ i)
unfolding read_length
read_length_int-Reads z i h =
    Reads-bind length_of
      (read_until-Reads b':' _ i (format_int-Lacks b':' z (λ p. omega (arith, p)) (omega arith)))
      (length_of-Reads _ (parse_int-format z h))

pub make_slice-Reads :
    {L : ℕ} {i : Bytes} (n : ℕ) → n ≤ max_items → Reads L (make_slice (pos n)) i n i
unfolding make_slice
make_slice-Reads n h = record {
  apply = λ st at. let small : leb n max_items ≡ true = ground arith in rw small (gives at);
}
