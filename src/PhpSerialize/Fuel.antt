-- ===== src/PhpSerialize/Fuel.antt =====
-- The fuel of `decode` against the length of the data: each read consumes input.
mod Steps
mod Reads
use laravel_queue_go.Prelude.{
  ℕ, zero, suc, ◌-◌, ◌+◌, ◌*◌, ◌≤◌, ◌<◌, ◌≡◌, ◌≢◌, refl, [], ◌∷◌, List, length, arith, Option-cases,
  inl, inr,
}
use laravel_queue_go.Prelude.Bytes.{Bytes, codes}
use laravel_queue_go.Prelude.Dict.{Dict, put}
use laravel_queue_go.Prelude.Result.{Result, ok, err, panic, out_of_fuel, bind}
use laravel_queue_go.PhpSerialize.Floats.{FloatText}
use laravel_queue_go.PhpSerialize.Value.{Value}
use laravel_queue_go.PhpSerialize.Names.{strip_visibility}
use laravel_queue_go.PhpSerialize.Decoder.{
  Cursor, Read, DecodeError, ◌>>=◌, Tag, tag, read_tagged, null_tag, bool_tag, int_tag, float_tag,
  string_tag, array_tag, object_tag, reference_tag, custom_tag, enum_tag, unknown_tag, read_value,
  read_entries, read_properties, read_array, read_object, read_array_key, read_string, decode_fuel,
  decode,
}
use Steps.{
  Ensures, holds, failed, crashed, Ensures-bind, Ensures-out_of_fuel, Eats, Eats-bind, Eats-mono,
  Eats-zero, Shrinks, pure-Eats,
}
use Reads.{
  read_null-Eats, read_bool-Eats, read_int-Eats, read_float-Eats, read_string-Eats,
  read_string_value-Eats, read_reference-Eats, read_custom_object-Eats, read_enum-Eats,
  at_byte-Eats, fail-Eats, read_array_key-Eats, read_array-Eats, read_object-Eats,
}

module _ (fl : FloatText) where
  tagged-Eats :
      {b : ℕ} {entries : ℕ → Read (List (Value × Value))} {properties : ℕ → Read (Dict Value)}
      → (2 ≤ b → (n : ℕ) → Eats (b - 2) 0 (entries n))
      → (2 ≤ b → (n : ℕ) → Eats (b - 2) 0 (properties n))
      → (t : Tag) (c : ℕ) → Eats b 0 (read_tagged fl entries properties t c)
  unfolding read_tagged
  tagged-Eats he hp null_tag c = Eats-zero read_null-Eats
  tagged-Eats he hp bool_tag c = Eats-zero read_bool-Eats
  tagged-Eats he hp int_tag c = Eats-zero read_int-Eats
  tagged-Eats he hp float_tag c = Eats-zero (read_float-Eats fl)
  tagged-Eats he hp string_tag c = Eats-zero read_string_value-Eats
  tagged-Eats he hp array_tag c = Eats-zero (read_array-Eats he)
  tagged-Eats he hp object_tag c = Eats-zero (read_object-Eats hp)
  tagged-Eats he hp reference_tag c = read_reference-Eats
  tagged-Eats he hp custom_tag c = Eats-zero read_custom_object-Eats
  tagged-Eats he hp enum_tag c = Eats-zero read_enum-Eats
  tagged-Eats he hp unknown_tag c = fail-Eats _

  -- One induction on the fuel: a call that consumes nothing first is a call on a shorter input.
  mutual
    unfolding read_value

    read_value-Eats : (f b : ℕ) → 2 * b < f → Eats b 0 (read_value fl f)
    read_value-Eats zero b h = absurd (omega arith)
    read_value-Eats (suc f) b h = at_byte-Eats λ c.
        tagged-Eats (λ le n. read_entries-Eats f n (b - 2) (omega arith))
          (λ le n. read_properties-Eats f n [] (b - 2) (omega arith)) (tag c) c

    read_entries-Eats : (f n b : ℕ) → 2 * b + 1 < f → Eats b 0 (read_entries fl f n)
    read_entries-Eats zero n b h = absurd (omega arith)
    read_entries-Eats (suc f) zero b h = pure-Eats _
    read_entries-Eats (suc f) (suc n) b h = Eats-zero (
        Eats-bind read_array_key-Eats λ key le.
          Eats-bind (Eats-mono (read_value-Eats f (b - 1) (omega arith)) (omega arith)) λ v _.
            Eats-bind (Eats-mono (read_entries-Eats f n (b - 1) (omega arith)) (omega arith))
              λ rest _. pure-Eats _)

    read_properties-Eats :
        (f n : ℕ) (m : Dict Value) (b : ℕ) → 2 * b + 1 < f → Eats b 0 (read_properties fl f n m)
    read_properties-Eats zero n m b h = absurd (omega arith)
    read_properties-Eats (suc f) zero m b h = pure-Eats _
    read_properties-Eats (suc f) (suc n) m b h = Eats-zero (
        Eats-bind read_string-Eats λ key le.
          Eats-bind (Eats-mono (read_value-Eats f (b - 2) (omega arith)) (omega arith))
            λ v _. Eats-mono (read_properties-Eats f n _ (b - 2) (omega arith)) (omega arith))

pub decode-ne-out_of_fuel : (fl : FloatText) (s : Bytes) → decode fl s ≢ out_of_fuel
unfolding decode
decode-ne-out_of_fuel fl s = Ensures-out_of_fuel (
    Ensures-bind {Q = λ _. Unit {0}}
      ((read_value-Eats fl _ (length s) (omega arith)).apply _ (omega arith)) λ r _. holds tt)
