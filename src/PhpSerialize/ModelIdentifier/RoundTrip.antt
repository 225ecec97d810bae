-- ===== src/PhpSerialize/ModelIdentifier/RoundTrip.antt =====
-- A ModelIdentifier through ToObject, Encode, Decode and AsModelIdentifier.
use laravel_queue_go.Prelude.{
  ℕ, suc, ◌+◌, ◌≤◌, ◌≡◌, refl, ap, Option, none, some, List, [], ◌∷◌, map, length, arith, All,
}
use laravel_queue_go.Prelude.Bytes.{Bytes, ◌=b◌, leq_b}
use laravel_queue_go.Prelude.Dict.{lookup}
use laravel_queue_go.Prelude.Int.{max_int64}
use laravel_queue_go.Prelude.Result.{ok}
use laravel_queue_go.PhpSerialize.Floats.{FloatText}
use laravel_queue_go.PhpSerialize.Names.{strip_visibility}
use laravel_queue_go.PhpSerialize.Value.{
  Value, string, object, items, of_items, fields, of_fields, items-of_items,
}
use laravel_queue_go.PhpSerialize.Normal.{
  norm, norm_items, zip_keys, RoundTrips, ItemsRoundTrip, IsKey,
}
use laravel_queue_go.PhpSerialize.Encoder.{encode, sort_keys, insert_key}
use laravel_queue_go.PhpSerialize.Decoder.{decode, max_items}
use laravel_queue_go.PhpSerialize.RoundTrip.{decode-encode}
use laravel_queue_go.PhpSerialize.Helpers.{Object, get_string}
use laravel_queue_go.PhpSerialize.ModelIdentifier.{
  ModelIdentifier, as_model_identifier, only_strings, index_keys, to_object, identify, or_null,
  collection_class_of, collection_class_value,
}

-- The `*Object` as a value.
abbrev pub of_object : Object → Value
of_object obj = object obj.class_name (of_fields obj.properties)

norm_items-strings : (rs : List Bytes) → norm_items (of_items (map string rs)) ≡ map string rs
unfolding norm of_items
norm_items-strings [] = refl
norm_items-strings (r ∷ rs) = ap (λ l. string r ∷ l) (norm_items-strings rs)

values-zip :
    (i : ℕ) (rs : List Bytes)
    → map (λ e. e.1) (zip_keys (index_keys i rs) (map string rs)) ≡ map string rs
values-zip i [] = refl
values-zip i (r ∷ rs) = ap (λ l. string r ∷ l) (values-zip (i + 1) rs)

only_strings-map : (rs : List Bytes) → only_strings (map string rs) ≡ rs
unfolding only_strings
only_strings-map [] = refl
only_strings-map (r ∷ rs) = ap (λ l. r ∷ l) (only_strings-map rs)

strings-RoundTrip : (rs : List Bytes) → ItemsRoundTrip (of_items (map string rs))
unfolding of_items
strings-RoundTrip [] = tt
strings-RoundTrip (r ∷ rs) = (tt, strings-RoundTrip rs)

index_keys-IsKey :
    (i : ℕ) (rs : List Bytes) → i + length rs ≤ max_int64 → All IsKey (index_keys i rs)
index_keys-IsKey i [] h = tt
index_keys-IsKey i (r ∷ rs) h =
    ((omega arith, omega arith), index_keys-IsKey (i + 1) rs (omega arith))

length-index_keys : (i : ℕ) (rs : List Bytes) → length (index_keys i rs) ≡ length (map string rs)
length-index_keys i [] = refl
length-index_keys i (r ∷ rs) = ap suc (length-index_keys (i + 1) rs)

collection_class-RoundTrips : (c : Option Bytes) → RoundTrips (collection_class_value c)
unfolding collection_class_value
collection_class-RoundTrips none = tt
collection_class-RoundTrips (some s) = tt

to_object-RoundTrips :
    (m : ModelIdentifier)
    → RoundTrips m.id
    → length m.relations ≤ max_int64
    → RoundTrips (of_object (to_object m))
unfolding to_object of_fields fields ◌=b◌ strip_visibility
to_object-RoundTrips m h le =
    let keys : All IsKey (items (of_items (index_keys 0 m.relations))) =
      rw (items-of_items (index_keys 0 m.relations))
        (index_keys-IsKey 0 m.relations (omega arith)) in
    let same : length (items (of_items (index_keys 0 m.relations)))
        ≡ length (items (of_items (map string m.relations))) =
      rw (items-of_items (index_keys 0 m.relations), items-of_items (map string m.relations))
        (length-index_keys 0 m.relations) in
    (
      (
        (refl, (refl, (refl, (refl, tt)))),
        ((refl, (refl, (refl, tt))), ((refl, (refl, tt)), ((refl, tt), (tt, tt)))),
      ),
      (refl, (refl, (refl, (refl, (refl, tt))))),
      (
        tt,
        (
          h,
          (
            tt,
            (
              collection_class-RoundTrips m.collection_class,
              ((keys, same, strings-RoundTrip m.relations), tt),
            ),
          ),
        ),
      ),
    )

collection_class-norm :
    (c : Option Bytes) → collection_class_of (some (norm (collection_class_value c))) ≡ c
unfolding collection_class_value collection_class_of norm
collection_class-norm none = refl
collection_class-norm (some s) = refl

-- AsModelIdentifier reads the normal form of what ToObject gives.
as_model_identifier-norm :
    (m : ModelIdentifier)
    → as_model_identifier (norm (of_object (to_object m))) ≡ some (record m { id = norm m.id })
unfolding as_model_identifier norm to_object identify get_string or_null of_fields fields insert_key
    sort_keys leq_b ◌=b◌ lookup
as_model_identifier-norm m = rw (
  collection_class-norm m.collection_class,
  items-of_items (index_keys 0 m.relations),
  norm_items-strings m.relations,
  values-zip 0 m.relations,
  items-of_items (map string m.relations),
  only_strings-map m.relations,
)

-- What Encode prints for the object of an identifier whose id is one of those that `RoundTrips`
-- allows, and whose relations an int can count, Decode makes a value of that is recognised as the
-- same identifier, its id in normal form, if the text is no longer than `max_items`.
pub model_identifier_roundtrip :
    (fl : FloatText) (m : ModelIdentifier) (s : Bytes)
    → RoundTrips m.id
    → length m.relations ≤ max_int64
    → encode fl (of_object (to_object m)) ≡ ok s
    → length s ≤ max_items
    → (w : Value) × (decode fl s ≡ ok w)
      × (as_model_identifier w ≡ some (record m { id = norm m.id }))
model_identifier_roundtrip fl m s h le e small = (
  norm (of_object (to_object m)),
  decode-encode fl _ s (to_object-RoundTrips m h le) e small,
  as_model_identifier-norm m,
)
