-- ===== src/PhpSerialize/RoundTrip.antt =====
-- encoder.go and decoder.go of pkg/phpserialize against one another.
pub mod Rules
mod Scalars
mod Floats
mod Texts
mod Loops
mod Properties
mod Sorting
mod Containers
use laravel_queue_go.Prelude.{
  ℕ, ◌+◌, ◌*◌, ◌≤◌, ◌≡◌, refl, sym, ap, Bool, true, false, List, [], ◌∷◌, ◌++◌, map, length,
  append-nil, arith, All, subst, suc,
}
use laravel_queue_go.Prelude.Bytes.{Bytes}
use laravel_queue_go.Prelude.Dict.{Dict, Distinct, Absent}
use laravel_queue_go.Prelude.Int.{ℤ, pos, InInt64, max_int64}
use laravel_queue_go.Prelude.Result.{Result, ok, bind}
use laravel_queue_go.Strconv.{format_int}
use laravel_queue_go.PhpSerialize.Floats.{FloatText}
use laravel_queue_go.PhpSerialize.Normal.{
  indexed, norm, norm_items, norm_fields, RoundTrips, ItemsRoundTrip, FieldsRoundTrip, IsPlain,
  of_entries, string_keys,
}
use laravel_queue_go.PhpSerialize.Value.{
  Value, Items, Fields, IntKind, null, bool, int, uint, float32, float64, string, slice, strings,
  ints, dict, object, array, enum, typed_slice, typed_map, json_number, back_ref, other, nil, cons,
  end, field, items, fields, of_fields,
}
use laravel_queue_go.PhpSerialize.Encoder.{
  Encoded, encode, encode_items, encode_fields, encode_slice, encode_map, encode_object,
  encode_array, encode_string, write_int, write_uint, sort_keys,
}
use laravel_queue_go.PhpSerialize.Decoder.{Cursor, DecodeError, max_items, decode}
use Rules.{At, Gives, gives}
use Texts.{
  Fits, Prints, null-Prints, bool-Prints, int-Prints, float-Prints, string-Prints, enum-Prints,
}
use Loops.{AllPrint, AllPropertiesPrint, slice-Loops, array-Loops, map-Loops}
use Properties.{object-PropertyLoops}
use Sorting.{sort_keys-Distinct, sort_keys-All, length-sort_keys, sort_keys-AllPropertiesPrint}
use Containers.{array-Prints, object-Prints}

Distinct-norm_fields : (fs : Fields) → Distinct (fields fs) → Distinct (norm_fields fs)
unfolding fields norm
Distinct-norm_fields end _ = tt
Distinct-norm_fields (field k v fs) (h, hs) = (absent fs h, Distinct-norm_fields fs hs)
  where
    absent : (fs : Fields) → Absent k (fields fs) → Absent k (norm_fields fs)
    absent end _ = tt
    absent (field j w fs) (h, hs) = (h, absent fs hs)

IsPlain-norm_fields : (fs : Fields) → All IsPlain (fields fs) → All IsPlain (norm_fields fs)
unfolding fields norm
IsPlain-norm_fields end _ = tt
IsPlain-norm_fields (field k v fs) (h, hs) = (h, IsPlain-norm_fields fs hs)

module _ (fl : FloatText) where
  length-encode_items : (vs : Items) → length (encode_items fl vs) ≡ length (items vs)
  unfolding encode items
  length-encode_items nil = refl
  length-encode_items (cons v vs) = ap suc (length-encode_items vs)

  strings-AllPrint :
      (ss : List Bytes) → AllPrint fl (map (λ s. ok (encode_string s)) ss) (map string ss)
  strings-AllPrint [] = tt
  strings-AllPrint (s ∷ ss) = (string-Prints fl s, strings-AllPrint ss)

  ints-AllPrint :
      (zs : List ℤ)
      → All InInt64 zs
      → AllPrint fl (map (λ z. ok (write_int z)) zs) (map (int IntKind.int64) zs)
  ints-AllPrint [] _ = tt
  ints-AllPrint (z ∷ zs) (h, hs) = (int-Prints fl z h, ints-AllPrint zs hs)

  length-map : {A B : Type 0} (f : A → B) (xs : List A) → length (map f xs) ≡ length xs
  length-map f [] = refl
  length-map f (x ∷ xs) = ap suc (length-map f xs)

  slice-Prints :
      (rs : List Encoded) (ws : List Value)
      → length rs ≤ max_int64
      → AllPrint fl rs ws
      → Prints fl (encode_slice rs) (of_entries (indexed 0 ws))
  unfolding encode_slice
  slice-Prints rs ws le h = array-Prints fl (slice-Loops fl 0 rs ws h (omega arith))

  map-Prints :
      (rs : Dict Encoded) (ws : Dict Value)
      → AllPropertiesPrint fl rs ws
      → Prints fl (encode_map rs) (of_entries (string_keys (sort_keys ws)))
  unfolding encode_map
  map-Prints rs ws h = rw (← length-sort_keys rs) (
      array-Prints fl
        (map-Loops fl (sort_keys rs) (sort_keys ws) (sort_keys-AllPropertiesPrint fl rs ws h)))

  fields-Prints :
      (class : Bytes) (rs : Dict Encoded) (ws : Dict Value)
      → Distinct ws
      → All IsPlain ws
      → AllPropertiesPrint fl rs ws
      → Prints fl (encode_object class rs) (object class (of_fields (sort_keys ws)))
  unfolding encode_object
  fields-Prints class rs ws distinct plain h = rw (← length-sort_keys rs) (
      object-Prints fl class (
        object-PropertyLoops fl (sort_keys rs) (sort_keys ws) (sort_keys-Distinct ws distinct)
          (sort_keys-All IsPlain ws plain) (sort_keys-AllPropertiesPrint fl rs ws h)))

  mutual
    unfolding encode norm write_uint write_int format_int encode_array items

    value-Prints : (v : Value) → RoundTrips v → Prints fl (encode fl v) (norm v)
    value-Prints null _ = null-Prints fl
    value-Prints (bool true) _ = bool-Prints fl true
    value-Prints (bool false) _ = bool-Prints fl false
    value-Prints (int k z) h = int-Prints fl z h
    value-Prints (uint k n) h = int-Prints fl (pos n) (omega arith)
    value-Prints (float32 b) h = float-Prints fl _ h
    value-Prints (float64 b) h = float-Prints fl b h
    value-Prints (string s) _ = string-Prints fl s
    value-Prints (slice vs) h =
        slice-Prints _ _ (omega (arith, length-encode_items vs, h.0)) (items-Print vs h.1)
    value-Prints (typed_slice vs) h =
        slice-Prints _ _ (omega (arith, length-encode_items vs, h.0)) (items-Print vs h.1)
    value-Prints (strings ss) h =
        slice-Prints _ _ (rw (length-map (λ s. ok (encode_string s)) ss) h) (strings-AllPrint ss)
    value-Prints (ints zs) h =
        slice-Prints _ _ (rw (length-map (λ z. ok (write_int z)) zs) h.0) (ints-AllPrint zs h.1)
    value-Prints (dict fs) h = map-Prints _ _ (fields-Print fs h.1)
    value-Prints (object class fs) h =
        fields-Prints class _ _ (Distinct-norm_fields fs h.0) (IsPlain-norm_fields fs h.1)
          (fields-Print fs h.2)
    value-Prints (array ks vs) h = array-Prints fl (
        array-Loops fl (items ks) _ _ h.0 (omega (arith, h.1, length-encode_items vs))
          (items-Print vs h.2))
    value-Prints (enum class case) h = enum-Prints fl class case h
    value-Prints (typed_map fs) h = elim h [ ]
    value-Prints (json_number s) h = elim h [ ]
    value-Prints (back_ref n) h = elim h [ ]
    value-Prints other h = elim h [ ]

    items-Print :
        (vs : Items) → ItemsRoundTrip vs → AllPrint fl (encode_items fl vs) (norm_items vs)
    items-Print nil _ = tt
    items-Print (cons v vs) (h, hs) = (value-Prints v h, items-Print vs hs)

    fields-Print :
        (fs : Fields)
        → FieldsRoundTrip fs
        → AllPropertiesPrint fl (encode_fields fl fs) (norm_fields fs)
    fields-Print end _ = tt
    fields-Print (field k v fs) (h, hs) = (refl, value-Prints v h, fields-Print fs hs)

  value_of :
      {L : ℕ} {w : Value} {rest : Bytes} {r : Result DecodeError (Value × Cursor)}
      → Gives L w rest r
      → bind r (λ (v, st). ok v) ≡ ok w
  value_of (gives at) = refl

  decode-Prints :
      {r : Encoded} {w : Value} (s : Bytes)
      → Prints fl r w
      → r ≡ ok s
      → length s ≤ max_items
      → decode fl s ≡ ok w
  unfolding decode
  decode-Prints {r} {w} s h e small =
      let same : h.text ≡ s = cc (h.encoded) in
      let fits : Fits (length s) (2 * length s + 1) h.text = rw same (omega arith) in
      let start : At (length s) (h.text ++ []) (record { rest = s; pos = 0; refs = [] }) = record {
        left = rw (append-nil h.text, same);
        inside = rw (append-nil h.text, same) (omega arith);
      } in
      value_of ((h.reads (length s) (2 * length s + 1) [] fits).apply _ start)

-- A value of those that `RoundTrips` allows is encoded without an error.
pub encode_total : (fl : FloatText) (v : Value) → RoundTrips v → (s : Bytes) × (encode fl v ≡ ok s)
encode_total fl v h = let p = value-Prints fl v h in (p.text, p.encoded)

-- What Encode prints for a value of those that `RoundTrips` allows, if it is no longer than
-- `max_items`, Decode reads back as the value in its normal form: integers as int64, slices and maps
-- as arrays, a map's keys sorted.
pub decode-encode :
    (fl : FloatText) (v : Value) (s : Bytes)
    → RoundTrips v
    → encode fl v ≡ ok s
    → length s ≤ max_items
    → decode fl s ≡ ok (norm v)
decode-encode fl v s h e small = decode-Prints fl s (value-Prints fl v h) e small
