-- ===== src/PhpSerialize/Helpers.antt =====
-- pkg/phpserialize/helpers.go, and ToSlice and ToMap of types.go. A nil `*Object` is none; a nil slice
-- or map is none as well.
use laravel_queue_go.Prelude.{ℕ, Bool, false, Option, none, some, List, [], ◌∷◌, if◌then◌else◌}
use laravel_queue_go.Prelude.Bytes.{Bytes}
use laravel_queue_go.Prelude.Dict.{Dict, lookup, put}
use laravel_queue_go.Prelude.Int.{ℤ, pos}
use laravel_queue_go.Prelude.Result.{Result, ok, panic, bind}
use laravel_queue_go.Strconv.{format_int}
use laravel_queue_go.PhpSerialize.Floats.{float_to_int, float_of_int}
use laravel_queue_go.PhpSerialize.Value.{
  Value, Items, IntKind, bool, int, float64, string, slice, dict, array, enum, items, fields,
  is_sequential,
}

pub record Object : Type 0 where
  pub class_name : Bytes
  pub properties : Dict Value

unfoldable pub to_slice : Items → Items → Option (List Value)
unfolding is_sequential
to_slice ks vs = if is_sequential ks then some (items vs) else none

-- `a.Values[i]` panics where there are more keys than values; keys of other types are left out.
abbrev pub MapResult : Type 0
MapResult = Result ⊥ (Dict Value)

unfoldable pub fill_map : List Value → List Value → Dict Value → MapResult
fill_map [] vs m = ok m
fill_map (string k ∷ ks) [] m = panic
fill_map (string k ∷ ks) (v ∷ vs) m = fill_map ks vs (put k v m)
fill_map (int IntKind.int64 z ∷ ks) [] m = panic
fill_map (int IntKind.int64 z ∷ ks) (v ∷ vs) m = fill_map ks vs (put (format_int z) v m)
fill_map (k ∷ ks) [] m = fill_map ks [] m
fill_map (k ∷ ks) (v ∷ vs) m = fill_map ks vs m

unfoldable pub to_map : Items → Items → MapResult
unfolding fill_map
to_map ks vs = fill_map (items ks) (items vs) []

unfoldable pub property : Option Object → Bytes → Option Value
property none key = none
property (some obj) key = lookup key obj.properties

unfoldable pub string_of : Option Value → Bytes
string_of (some (string s)) = s
string_of (some (enum class case)) = case
string_of _ = []

unfoldable pub get_string : Option Object → Bytes → Bytes
unfolding property string_of
get_string obj key = string_of (property obj key)

enum_of : Option Value → Option (Bytes × Bytes)
enum_of (some (enum class case)) = some (class, case)
enum_of _ = none

unfoldable pub get_enum : Option Object → Bytes → Option (Bytes × Bytes)
unfolding property enum_of
get_enum obj key = enum_of (property obj key)

int_of : Option Value → ℤ
int_of (some (int IntKind.int64 z)) = z
int_of (some (float64 b)) = float_to_int b
int_of (some (int IntKind.int z)) = z
int_of _ = pos 0

unfoldable pub get_int : Option Object → Bytes → ℤ
unfolding property int_of
get_int obj key = int_of (property obj key)

float_of : Option Value → ℕ
float_of (some (float64 b)) = b
float_of (some (int IntKind.int64 z)) = float_of_int z
float_of _ = 0

unfoldable pub get_float : Option Object → Bytes → ℕ
unfolding property float_of
get_float obj key = float_of (property obj key)

bool_of : Option Value → Bool
bool_of (some (bool b)) = b
bool_of _ = false

unfoldable pub get_bool : Option Object → Bytes → Bool
unfolding property bool_of
get_bool obj key = bool_of (property obj key)

slice_of : Option Value → Option (List Value)
slice_of (some (array ks vs)) = some (items vs)
slice_of (some (slice vs)) = some (items vs)
slice_of _ = none

unfoldable pub get_slice : Option Object → Bytes → Option (List Value)
unfolding property slice_of
get_slice obj key = slice_of (property obj key)

unfoldable pub map_of : Option Value → Result ⊥ (Option (Dict Value))
map_of (some (array ks vs)) = bind (to_map ks vs) λ m. ok (some m)
map_of (some (dict fs)) = ok (some (fields fs))
map_of _ = ok none

unfoldable pub get_map : Option Object → Bytes → Result ⊥ (Option (Dict Value))
unfolding property map_of
get_map obj key = map_of (property obj key)
