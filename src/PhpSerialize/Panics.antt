-- ===== src/PhpSerialize/Panics.antt =====
-- Lengths below zero in pkg/phpserialize/decoder.go: strconv.Atoi takes them.
use laravel_queue_go.Prelude.{ℕ, suc, ◌*◌, ◌≤◌, ◌≡◌, refl, ap, List, [], ◌∷◌, ◌++◌, length, arith}
use laravel_queue_go.Prelude.Bytes.{Bytes, codes}
use laravel_queue_go.Prelude.Int.{negsuc, max_int64}
use laravel_queue_go.Prelude.Result.{Result, ok, panic, bind}
use laravel_queue_go.Strconv.{format_int}
use laravel_queue_go.PhpSerialize.Floats.{FloatText}
use laravel_queue_go.PhpSerialize.Value.{Value, string}
use laravel_queue_go.PhpSerialize.Decoder.{
  Cursor, Read, DecodeError, ◌>>=◌, at_byte, tag, read_tagged, pure, take_text, make_slice,
  read_string, read_string_value, read_array, read_value, decode_fuel, decode,
}
use laravel_queue_go.PhpSerialize.RoundTrip.Rules.{
  At, Reads, Gives, gives, expect-Reads, read_length_int-Reads,
}

-- On an input the read panics.
record Panics {A : Type 0} (L : ℕ) (m : Read A) (input : Bytes) : Type 0 where
  pub apply : (st : Cursor) → At L input st → m st ≡ panic

after-Gives :
    {A B : Type 0} {L : ℕ} {a : A} {j : Bytes} {r : Result DecodeError (A × Cursor)}
    (f : A × Cursor → Result DecodeError (B × Cursor))
    → Gives L a j r
    → ((st : Cursor) → At L j st → f (a, st) ≡ panic)
    → bind r f ≡ panic
after-Gives f (gives {st} h) k = k st h

module _ {A B : Type 0} {L : ℕ} where
  later-Panics :
      {m : Read A} (f : A → Read B) {a : A} {i j : Bytes}
      → Reads L m i a j
      → Panics L (f a) j
      → Panics L (m >>= f) i
  later-Panics f h g = record { apply = λ st at. after-Gives _ (h.apply st at) g.apply }

  first-Panics : {m : Read A} (f : A → Read B) {i : Bytes} → Panics L m i → Panics L (m >>= f) i
  first-Panics f h = record { apply = λ st at. rw (h.apply st at) refl }

module _ (fl : FloatText) (n : ℕ) (rest : Bytes) (small : n ≤ max_int64) where
  read_string-Panics :
      {L : ℕ}
      → Panics L read_string (codes "s:" ++ (format_int (negsuc n) ++ (codes ":\"" ++ rest)))
  unfolding read_string take_text
  read_string-Panics = later-Panics _ (expect-Reads (codes "s:")) (
      later-Panics _ (read_length_int-Reads (negsuc n) _ (omega arith, omega arith))
        (later-Panics _ (expect-Reads (codes ":\"")) (record { apply = λ st at. refl })))

  read_array-Panics :
      {L : ℕ} (loop : ℕ → Read (List (Value × Value)))
      → Panics L (read_array loop) (codes "a:" ++ (format_int (negsuc n) ++ (codes ":{" ++ rest)))
  unfolding read_array make_slice
  read_array-Panics loop = later-Panics _ (expect-Reads (codes "a:")) (
      later-Panics _ (read_length_int-Reads (negsuc n) _ (omega arith, omega arith))
        (later-Panics _ (expect-Reads (codes ":{")) (record { apply = λ st at. refl })))

  decode-Panics :
      (c : ℕ) (s : Bytes)
      → ((f : ℕ) → Panics (length (c ∷ s)) (read_value fl (suc f)) (c ∷ s))
      → decode fl (c ∷ s) ≡ panic
  unfolding decode decode_fuel
  decode-Panics c s h = with_fuel _ (2 * length (c ∷ s)) (omega arith)
    where
      start : At (length (c ∷ s)) (c ∷ s) (record { rest = c ∷ s; pos = 0; refs = [] })
      start = record { left = refl; inside = omega arith }

      with_fuel : (n f : ℕ) → n ≡ suc f → decode_fuel fl n (c ∷ s) ≡ panic
      with_fuel n f e = rw e (ap (λ r. bind r (λ (v, st). ok v)) ((h f).apply _ start))

  -- A text that begins with a string or with an array whose length is a negative int64 makes Decode
  -- panic, whatever follows the length.
  pub decode-negative_length :
      (decode fl (codes "s:" ++ (format_int (negsuc n) ++ (codes ":\"" ++ rest))) ≡ panic)
      × (decode fl (codes "a:" ++ (format_int (negsuc n) ++ (codes ":{" ++ rest))) ≡ panic)
  unfolding read_value at_byte read_tagged tag read_string_value
  decode-negative_length = (
    decode-Panics b's' _ (λ f. record {
      apply = λ st at.
          rw (at.left, at_byte)
            ((first-Panics (λ text. pure (string text)) read_string-Panics).apply st at);
    }),
    decode-Panics b'a' _ (λ f. record {
      apply = λ st at. rw (at.left, at_byte) ((read_array-Panics _).apply st at);
    }),
  )
