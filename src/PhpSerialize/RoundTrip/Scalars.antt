-- ===== src/PhpSerialize/RoundTrip/Scalars.antt =====
-- The texts of the values without parts, read again.
use laravel_queue_go.Prelude.{
  ℕ, ◌≤◌, ◌≡◌, refl, sym, ◌∙◌, ap, Bool, true, false, none, some, [], ◌∷◌, ◌++◌, length,
  append_assoc, arith,
}
use laravel_queue_go.Prelude.Bytes.{Bytes, codes}
use laravel_queue_go.Prelude.Int.{ℤ, max_int64, InInt64}
use laravel_queue_go.Strconv.{format_int}
use laravel_queue_go.Strconv.RoundTrip.{Lacks, parse_int-format, format_int-Lacks}
use laravel_queue_go.PhpSerialize.Names.{split_last}
use laravel_queue_go.PhpSerialize.Value.{Value, IntKind, null, bool, int, string, enum}
use laravel_queue_go.PhpSerialize.Encoder.{write_int, encode_string, encode_enum}
use laravel_queue_go.PhpSerialize.Decoder.{
  Read, ◌>>◌, pure, max_items, remember, at_byte, read_null, read_bool, read_int, read_string,
  read_string_value, read_enum,
}
use laravel_queue_go.PhpSerialize.RoundTrip.Rules.{
  Reads, Reads-bind, Reads-input, pure-Reads, expect-Reads, read_until-Reads, skip-Reads,
  read_byte-Reads, take_text-Reads, remember-Reads, or_fail-Reads, read_length-Reads,
}

pub then-Reads :
    {A B : Type 0} {L : ℕ} {m : Read A} {n : Read B} {a : A} {b : B} {i j k : Bytes}
    → Reads L m i a j
    → Reads L n j b k
    → Reads L (m >> n) i b k
then-Reads {n = n} h g = Reads-bind (λ _. n) h g

-- What is read is remembered and returned.
pub keep-Reads : {L : ℕ} {i : Bytes} (v : Value) → Reads L (remember v >> pure v) i v i
keep-Reads v = then-Reads (remember-Reads v) (pure-Reads v)

pub at_byte-Reads :
    {L : ℕ} (switch : ℕ → Read Value) {c : ℕ} {i j : Bytes} {v : Value}
    → Reads L (switch c) (c ∷ i) v j
    → Reads L (at_byte switch) (c ∷ i) v j
unfolding at_byte
at_byte-Reads switch h = record { apply = λ st at. rw (at.left, at_byte) (h.apply st at) }

pub read_int-Reads :
    {L : ℕ} (z : ℤ) (i : Bytes)
    → InInt64 z
    → Reads L read_int (write_int z ++ i) (int IntKind.int64 z) i
unfolding read_int write_int
read_int-Reads z i h =
    Reads-input
      (append_assoc (codes "i:") _ i ∙ ap (λ t. codes "i:" ++ t) (append_assoc (format_int z) _ i))
      (then-Reads (expect-Reads (codes "i:")) (
        Reads-bind _
          (read_until-Reads b';' (format_int z) i
            (format_int-Lacks b';' z (λ p. omega arith) (omega arith)))
          (then-Reads skip-Reads
            (Reads-bind _ (or_fail-Reads _ (parse_int-format z h)) (keep-Reads _)))))

pub read_string-Reads :
    {L : ℕ} (s i : Bytes)
    → L ≤ max_items
    → length s ≤ max_int64
    → Reads L read_string (encode_string s ++ i) s i
unfolding read_string encode_string
read_string-Reads s i small h = Reads-input (simp append_assoc) (
    then-Reads (expect-Reads (codes "s:")) (
      Reads-bind _ (read_length-Reads (length s) _ h) (
        then-Reads (expect-Reads (codes ":\"")) (
          Reads-bind _ (take_text-Reads s _ small) (
            then-Reads (expect-Reads (codes "\";"))
              (then-Reads (remember-Reads _) (pure-Reads s)))))))

pub read_string_value-Reads :
    {L : ℕ} (s i : Bytes)
    → L ≤ max_items
    → length s ≤ max_int64
    → Reads L read_string_value (encode_string s ++ i) (string s) i
unfolding read_string_value
read_string_value-Reads s i small h =
    Reads-bind _ (read_string-Reads s i small h) (pure-Reads (string s))

split_last-append : (c : ℕ) (s t : Bytes) → Lacks c t → split_last c (s ++ c ∷ t) ≡ some (s, t)
unfolding split_last
split_last-append c [] t h = rw (split_last-Lacks c t h) (ground arith)
  where
    split_last-Lacks : (c : ℕ) (t : Bytes) → Lacks c t → split_last c t ≡ none
    split_last-Lacks c [] h = refl
    split_last-Lacks c (x ∷ t) (h, hs) = ground (arith, split_last-Lacks c t hs)
split_last-append c (x ∷ s) t h = rw (split_last-append c s t h)

pub read_enum-Reads :
    {L : ℕ} (class case i : Bytes)
    → L ≤ max_items
    → length (class ++ b':' ∷ case) ≤ max_int64
    → Lacks b':' case
    → Reads L read_enum (encode_enum class case ++ i) (enum class case) i
unfolding read_enum encode_enum
read_enum-Reads class case i small h lacks = Reads-input (simp append_assoc) (
    then-Reads (expect-Reads (codes "E:")) (
      Reads-bind _ (read_length-Reads (length (class ++ b':' ∷ case)) _ h) (
        then-Reads (expect-Reads (codes ":\"")) (
          Reads-bind _
            (Reads-input (sym (append_assoc class (b':' ∷ case) _))
              (take_text-Reads (class ++ b':' ∷ case) _ small))
            (then-Reads (expect-Reads (codes "\";")) (
              Reads-bind _ (or_fail-Reads _ (split_last-append b':' class case lacks))
                (keep-Reads _)))))))

pub read_null-Reads : {L : ℕ} (i : Bytes) → Reads L read_null (codes "N;" ++ i) null i
unfolding read_null
read_null-Reads i = then-Reads (expect-Reads (codes "N;")) (keep-Reads null)

abbrev pub bool_text : Bool → Bytes
bool_text true = codes "b:1;"
bool_text false = codes "b:0;"

pub read_bool-Reads :
    {L : ℕ} (b : Bool) (i : Bytes) → Reads L read_bool (bool_text b ++ i) (bool b) i
unfolding read_bool
read_bool-Reads true i =
    then-Reads (expect-Reads (codes "b:")) (
      Reads-bind _ read_byte-Reads (then-Reads (expect-Reads (codes ";")) (keep-Reads (bool true))))
read_bool-Reads false i =
    then-Reads (expect-Reads (codes "b:")) (
      Reads-bind _ read_byte-Reads
        (then-Reads (expect-Reads (codes ";")) (keep-Reads (bool false))))
