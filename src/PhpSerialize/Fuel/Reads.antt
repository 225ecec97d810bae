-- ===== src/PhpSerialize/Fuel/Reads.antt =====
-- What the reads of the grammar leave of the input.
use laravel_queue_go.Prelude.{◌-◌, ℕ, suc, ◌≤◌, Option, [], ◌∷◌, List, arith}
use laravel_queue_go.Prelude.Dict.{Dict}
use laravel_queue_go.Prelude.Result.{err}
use laravel_queue_go.PhpSerialize.Floats.{FloatText}
use laravel_queue_go.Strconv.{parse_int}
use laravel_queue_go.PhpSerialize.Names.{split_last}
use laravel_queue_go.PhpSerialize.Value.{Value, IntKind, int, float64, enum}
use laravel_queue_go.PhpSerialize.Decoder.{
  Read, DecodeError, ◌>>=◌, ◌>>◌, pure, or_fail, remember, deref, read_null, read_bool, read_int,
  read_float, parse_float, read_string, read_string_value, read_reference, read_custom_object,
  read_enum, read_array_key, key_at, at_byte, pure, fail, tag, Tag, read_array, read_object,
}
use laravel_queue_go.PhpSerialize.Fuel.Steps.{
  Ensures-imp, failed, Shrinks, Eats, Eats-bind, Eats-mono, Eats-expect, ◌⨟◌, expect-Eats,
  read_until-Eats, skip-Eats, take_text-Eats, remember-Eats, open_slot-Eats, close_slot-Eats,
  make_slice-Eats, deref-Eats, read_byte-Eats, or_fail-Eats, pure-Eats, read_length-Eats,
}

pub read_null-Eats : {b : ℕ} → Eats b 2 read_null
unfolding read_null
read_null-Eats = expect-Eats _ ⨟ remember-Eats _ ⨟ pure-Eats _

pub read_bool-Eats : {b : ℕ} → Eats b 2 read_bool
unfolding read_bool
read_bool-Eats =
    expect-Eats _ ⨟ Eats-bind read_byte-Eats λ c _. Eats-expect _ (remember-Eats _ ⨟ pure-Eats _)

-- What is read off a text is remembered and returned.
keep-Eats :
    {b : ℕ} {A : Type 0} (o : Option A) (e : DecodeError) (g : A → Value)
    → Eats b 0 (or_fail o e >>= λ a. remember (g a) >> pure (g a))
keep-Eats o e g = Eats-bind (or_fail-Eats o e) λ a _. remember-Eats (g a) ⨟ pure-Eats (g a)

pub read_int-Eats : {b : ℕ} → Eats b 2 read_int
unfolding read_int
read_int-Eats =
    expect-Eats _
    ⨟ Eats-bind (read_until-Eats _)
        λ text _. Eats-bind skip-Eats λ _ _. keep-Eats (parse_int text) _ (int IntKind.int64)

pub read_float-Eats : {b : ℕ} → (fl : FloatText) → Eats b 2 (read_float fl)
unfolding read_float
read_float-Eats fl =
    expect-Eats _
    ⨟ Eats-bind (read_until-Eats _)
        λ text _. Eats-bind skip-Eats λ _ _. keep-Eats (parse_float fl text) _ float64

pub read_string-Eats : {b : ℕ} → Eats b 2 read_string
unfolding read_string
read_string-Eats =
    expect-Eats _
    ⨟ Eats-bind read_length-Eats λ n _.
      Eats-expect _
        (Eats-bind (take_text-Eats n) λ text _. Eats-expect _ (remember-Eats _ ⨟ pure-Eats _))

pub read_string_value-Eats : {b : ℕ} → Eats b 2 read_string_value
unfolding read_string_value
read_string_value-Eats = Eats-bind read_string-Eats λ text _. pure-Eats _

pub read_reference-Eats : {b : ℕ} → Eats b 0 read_reference
unfolding read_reference
read_reference-Eats =
    skip-Eats
    ⨟ Eats-expect _ (
        Eats-bind (read_until-Eats _) λ text _.
          Eats-bind skip-Eats
            λ _ _. Eats-bind {f = deref} (or_fail-Eats (parse_int text) _) λ z _. deref-Eats z)

pub read_custom_object-Eats : {b : ℕ} → Eats b 2 read_custom_object
unfolding read_custom_object
read_custom_object-Eats =
    expect-Eats _
    ⨟ Eats-bind read_length-Eats λ n _. Eats-expect _ (
        Eats-bind (take_text-Eats n) λ class _. Eats-expect _ (
          Eats-bind read_length-Eats λ m _.
            Eats-expect _ (take_text-Eats m ⨟ Eats-expect _ (remember-Eats _ ⨟ pure-Eats _))))

pub read_enum-Eats : {b : ℕ} → Eats b 2 read_enum
unfolding read_enum
read_enum-Eats =
    expect-Eats _
    ⨟ Eats-bind read_length-Eats λ n _. Eats-expect _ (
        Eats-bind (take_text-Eats n)
          λ val _. Eats-expect _ (keep-Eats (split_last b':' val) _ λ e. enum e.0 e.1))

pub fail-Eats : {A : Type 0} {b k : ℕ} (e : DecodeError) → Eats {A = A} b k (fail e)
fail-Eats e = record { apply = λ st _. failed }

Eats-less : {A : Type 0} {b k : ℕ} {m : Read A} → Eats b (suc k) m → Eats b k m
Eats-less h = record { apply = λ st small. Ensures-imp (h.apply st small) λ r le. omega arith }

key_at-Eats : {b : ℕ} (c : ℕ) → Eats b 1 (key_at c)
unfolding key_at
key_at-Eats {b} c =
    elim (tag c)
      as (λ t. Eats b 1 (elim t [
        | Tag.int_tag ↦ read_int
        | Tag.string_tag ↦ read_string_value
        | _ ↦ fail (DecodeError.unexpected_key_type c)
      ])) [
        | Tag.int_tag ↦ Eats-less read_int-Eats
        | Tag.string_tag ↦ Eats-less read_string_value-Eats
        | _ ↦ fail-Eats _
      ]

pub at_byte-Eats :
    {b k : ℕ} {switch : ℕ → Read Value}
    → ((c : ℕ) → Eats b k (switch c))
    → Eats b k (at_byte switch)
unfolding at_byte
at_byte-Eats {k = k} {switch = switch} h = record {
  apply = λ st small.
      elim st.rest
        as (λ s.
          Shrinks k st (elim s [ [] ↦ err DecodeError.unexpected_end | c ∷ s ↦ switch c st ])) [
            | [] ↦ failed
            | c ∷ s ↦ (h c).apply st small
          ];
}

pub read_array_key-Eats : {b : ℕ} → Eats b 1 read_array_key
unfolding read_array_key
read_array_key-Eats = at_byte-Eats key_at-Eats

pub read_array-Eats :
    {b : ℕ} {loop : ℕ → Read (List (Value × Value))}
    → (2 ≤ b → (n : ℕ) → Eats (b - 2) 0 (loop n))
    → Eats b 2 (read_array loop)
unfolding read_array
read_array-Eats h = Eats-bind (expect-Eats _) λ _ le. Eats-bind read_length-Eats λ count _.
    Eats-expect _ (
      Eats-bind (make_slice-Eats _) λ n _. Eats-bind open_slot-Eats λ slot _.
        Eats-bind (Eats-mono (h (omega arith) n) (omega arith))
          λ entries _. Eats-expect _ (close_slot-Eats _ _))

pub read_object-Eats :
    {b : ℕ} {loop : ℕ → Read (Dict Value)}
    → (2 ≤ b → (n : ℕ) → Eats (b - 2) 0 (loop n))
    → Eats b 2 (read_object loop)
unfolding read_object
read_object-Eats h = Eats-bind (expect-Eats _) λ _ le. Eats-bind read_length-Eats λ n _.
    Eats-expect _ (
      Eats-bind (take_text-Eats _) λ class _. Eats-expect _ (
        Eats-bind read_length-Eats λ count _. Eats-expect _ (
          Eats-bind open_slot-Eats λ slot _.
            Eats-bind (Eats-mono (h (omega arith) _) (omega arith))
              λ properties _. Eats-expect _ (close_slot-Eats _ _))))
