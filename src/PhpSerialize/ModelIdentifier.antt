-- ===== src/PhpSerialize/ModelIdentifier.antt =====
-- pkg/phpserialize/model_identifier.go.
pub mod RoundTrip
use laravel_queue_go.Prelude.{
  ℕ, ◌+◌, Bool, true, false, Option, none, some, List, [], ◌∷◌, map, if◌then◌else◌,
}
use laravel_queue_go.Prelude.Bytes.{Bytes, codes, ◌=b◌}
use laravel_queue_go.Prelude.Dict.{Dict, lookup}
use laravel_queue_go.Prelude.Int.{pos}
use laravel_queue_go.PhpSerialize.Value.{
  Value, Items, IntKind, null, int, string, object, array, items, of_items, fields,
}
use laravel_queue_go.PhpSerialize.Helpers.{Object, get_string}

abbrev pub model_identifier_class : Bytes
model_identifier_class = codes "Illuminate\\Contracts\\Database\\ModelIdentifier"

pub record ModelIdentifier : Type 0 where
  pub class : Bytes
  pub id : Value
  pub relations : List Bytes
  pub connection : Bytes
  pub collection_class : Option Bytes

unfoldable pub is_model_identifier : Option Object → Bool
is_model_identifier none = false
is_model_identifier (some obj) = obj.class_name =b model_identifier_class

-- An absent property is nil.
unfoldable pub or_null : Option Value → Value
or_null none = null
or_null (some v) = v

unfoldable pub only_strings : List Value → List Bytes
only_strings [] = []
only_strings (string s ∷ vs) = s ∷ only_strings vs
only_strings (v ∷ vs) = only_strings vs

unfoldable pub relations_of : Option Value → List Bytes
unfolding only_strings
relations_of (some (array ks vs)) = only_strings (items vs)
relations_of _ = []

unfoldable pub collection_class_of : Option Value → Option Bytes
collection_class_of (some (string s)) = some s
collection_class_of _ = none

unfoldable pub identify : Object → ModelIdentifier
unfolding get_string or_null relations_of collection_class_of
identify obj = record {
  class = get_string (some obj) (codes "class");
  id = or_null (lookup (codes "id") obj.properties);
  relations = relations_of (lookup (codes "relations") obj.properties);
  connection = get_string (some obj) (codes "connection");
  collection_class = collection_class_of (lookup (codes "collectionClass") obj.properties);
}

unfoldable pub as_model_identifier : Value → Option ModelIdentifier
unfolding is_model_identifier identify
as_model_identifier (object class fs) =
    let obj : Object = record { class_name = class; properties = fields fs } in
    if is_model_identifier (some obj) then some (identify obj) else none
as_model_identifier _ = none

abbrev pub index_keys : ℕ → List Bytes → List Value
index_keys i [] = []
index_keys i (r ∷ rs) = int IntKind.int64 (pos i) ∷ index_keys (i + 1) rs

unfoldable pub collection_class_value : Option Bytes → Value
collection_class_value none = null
collection_class_value (some s) = string s

unfoldable pub to_object : ModelIdentifier → Object
unfolding collection_class_value
to_object m = record {
  class_name = model_identifier_class;
  properties =
      (codes "class", string m.class)
      ∷ (codes "id", m.id)
      ∷ (codes "connection", string m.connection)
      ∷ (codes "collectionClass", collection_class_value m.collection_class)
      ∷ (
        codes "relations",
        array (of_items (index_keys 0 m.relations)) (of_items (map string m.relations)),
      )
      ∷ [];
}
