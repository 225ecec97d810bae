-- ===== src/PhpSerialize/Normal.antt =====
-- What a value becomes when it is encoded and decoded again, and the values for which that holds.
use laravel_queue_go.Prelude.{
  ℕ, ◌+◌, ◌^◌, ◌≤◌, ◌<◌, ◌≡◌, List, [], ◌∷◌, map, length, if◌then◌else◌, All,
}
use laravel_queue_go.Prelude.Bytes.{Bytes}
use laravel_queue_go.Prelude.Dict.{Dict, Distinct}
use laravel_queue_go.Prelude.Int.{pos, InInt64, max_int64}
use laravel_queue_go.Strconv.RoundTrip.{Lacks}
use laravel_queue_go.PhpSerialize.Floats.{nan, is_nan, widen}
use laravel_queue_go.PhpSerialize.Names.{strip_visibility}
use laravel_queue_go.PhpSerialize.Encoder.{sort_keys}
use laravel_queue_go.PhpSerialize.Value.{
  Value, Items, Fields, IntKind, null, bool, int, uint, float32, float64, string, slice, strings,
  ints, dict, object, array, enum, typed_slice, typed_map, json_number, back_ref, other, nil, cons,
  end, field, items, of_items, fields, of_fields,
}

-- Every NaN prints alike.
abbrev pub norm_float : ℕ → Value
norm_float b = float64 (if is_nan b then nan else b)

-- The keys i, i + 1, … with the values.
abbrev pub indexed : ℕ → List Value → List (Value × Value)
indexed i [] = []
indexed i (v ∷ vs) = (int IntKind.int64 (pos i), v) ∷ indexed (i + 1) vs

abbrev pub string_keys : Dict Value → List (Value × Value)
string_keys = map (λ e. (string e.0, e.1))

abbrev pub of_entries : List (Value × Value) → Value
of_entries es = array (of_items (map (λ e. e.0) es)) (of_items (map (λ e. e.1) es))

abbrev pub zip_keys : List Value → List Value → List (Value × Value)
zip_keys [] vs = []
zip_keys (k ∷ ks) [] = []
zip_keys (k ∷ ks) (v ∷ vs) = (k, v) ∷ zip_keys ks vs

-- Integers of every type come back as int64, floats as float64, slices and maps as arrays, a map's
-- keys in their order.
unfoldable mutual
  pub norm : Value → Value
  norm (int k z) = int IntKind.int64 z
  norm (uint k n) = int IntKind.int64 (pos n)
  norm (float32 b) = norm_float (widen b)
  norm (float64 b) = norm_float b
  norm (slice vs) = of_entries (indexed 0 (norm_items vs))
  norm (typed_slice vs) = of_entries (indexed 0 (norm_items vs))
  norm (strings ss) = of_entries (indexed 0 (map string ss))
  norm (ints zs) = of_entries (indexed 0 (map (int IntKind.int64) zs))
  norm (dict fs) = of_entries (string_keys (sort_keys (norm_fields fs)))
  norm (object class fs) = object class (of_fields (sort_keys (norm_fields fs)))
  norm (array ks vs) = of_entries (zip_keys (items ks) (norm_items vs))
  norm null = null
  norm (bool b) = bool b
  norm (string s) = string s
  norm (enum class case) = enum class case
  norm (typed_map fs) = typed_map fs
  norm (json_number s) = json_number s
  norm (back_ref n) = back_ref n
  norm other = other

  pub norm_items : Items → List Value
  norm_items nil = []
  norm_items (cons v vs) = norm v ∷ norm_items vs

  pub norm_fields : Fields → Dict Value
  norm_fields end = []
  norm_fields (field k v fs) = (k, norm v) ∷ norm_fields fs

-- A key of an array: an int64 or a string.
abbrev pub IsKey : Value → Type 0
IsKey (int IntKind.int64 z) = InInt64 z
IsKey (string s) = Unit
IsKey _ = ⊥

-- A property name that carries no visibility prefix.
abbrev pub IsPlain : Bytes × Value → Type 0
IsPlain e = strip_visibility e.0 ≡ e.0

-- Integers in the range of int64, slices no longer than an int can count, a case name without a colon, a map's keys distinct, property
-- names without a prefix, arrays with int64 and string keys and as many values.
abbrev mutual
  pub RoundTrips : Value → Type 0
  RoundTrips (int k z) = InInt64 z
  RoundTrips (uint k n) = n ≤ max_int64
  RoundTrips (float32 b) = widen b < 2 ^ 64
  RoundTrips (float64 b) = b < 2 ^ 64
  RoundTrips (slice vs) = (length (items vs) ≤ max_int64) × ItemsRoundTrip vs
  RoundTrips (typed_slice vs) = (length (items vs) ≤ max_int64) × ItemsRoundTrip vs
  RoundTrips (strings ss) = length ss ≤ max_int64
  RoundTrips (ints zs) = (length zs ≤ max_int64) × All InInt64 zs
  RoundTrips (dict fs) = Distinct (fields fs) × FieldsRoundTrip fs
  RoundTrips (object class fs) = Distinct (fields fs) × All IsPlain (fields fs) × FieldsRoundTrip fs
  RoundTrips (array ks vs) =
      All IsKey (items ks) × (length (items ks) ≡ length (items vs)) × ItemsRoundTrip vs
  RoundTrips (enum class case) = Lacks b':' case
  RoundTrips null = Unit
  RoundTrips (bool b) = Unit
  RoundTrips (string s) = Unit
  RoundTrips (typed_map fs) = ⊥
  RoundTrips (json_number s) = ⊥
  RoundTrips (back_ref n) = ⊥
  RoundTrips other = ⊥

  pub ItemsRoundTrip : Items → Type 0
  ItemsRoundTrip nil = Unit
  ItemsRoundTrip (cons v vs) = RoundTrips v × ItemsRoundTrip vs

  pub FieldsRoundTrip : Fields → Type 0
  FieldsRoundTrip end = Unit
  FieldsRoundTrip (field k v fs) = RoundTrips v × FieldsRoundTrip fs
