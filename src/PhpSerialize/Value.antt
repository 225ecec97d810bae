-- ===== src/PhpSerialize/Value.antt =====
-- pkg/phpserialize/types.go, and the dynamic types of Go's `any` that encodeValue tells apart.
use laravel_queue_go.Prelude.{ℕ, ◌+◌, ◌≡◌, refl, ap, Bool, true, false, ◌&&◌, List, [], ◌∷◌, ◌==◌}
use laravel_queue_go.Prelude.Bytes.{Bytes}
use laravel_queue_go.Prelude.Dict.{Dict}
use laravel_queue_go.Prelude.Int.{ℤ, pos}

-- The signed and the unsigned integer types; a value of each is the number that it stands for.
pub data IntKind : Type 0 where
  int int8 int16 int32 int64 : IntKind

pub data UintKind : Type 0 where
  uint uint8 uint16 uint32 uint64 : UintKind

-- A float is its IEEE 754 bit pattern. `Array` is the struct `*Array` with its two slices, `Fields`
-- a `map[string]any`. `typed_slice` and `typed_map` are slices and maps of other types, which the
-- encoder reads by reflection (the keys of a map as fmt prints them by %v). `json_number` is a
-- json.Number. `back_ref n` is the
-- pointer to the container that the decoder numbered n, inside that container: a cycle. `other` is
-- a value of any other type (a func, a chan, a struct).
mutual
  pub data Value : Type 0 where
    null : Value
    bool : Bool → Value
    int : IntKind → ℤ → Value
    uint : UintKind → ℕ → Value
    float32 : ℕ → Value
    float64 : ℕ → Value
    string : Bytes → Value
    slice : Items → Value
    strings : List Bytes → Value
    ints : List ℤ → Value
    dict : Fields → Value
    object : Bytes → Fields → Value
    array : Items → Items → Value
    enum : Bytes → Bytes → Value
    typed_slice : Items → Value
    typed_map : Fields → Value
    json_number : Bytes → Value
    back_ref : ℕ → Value
    other : Value

  pub data Items : Type 0 where
    nil : Items
    cons : Value → Items → Items

  pub data Fields : Type 0 where
    end : Fields
    field : Bytes → Value → Fields → Fields

unfoldable pub items : Items → List Value
items nil = []
items (cons v vs) = v ∷ items vs

unfoldable pub of_items : List Value → Items
of_items [] = nil
of_items (v ∷ vs) = cons v (of_items vs)

unfoldable pub fields : Fields → Dict Value
fields end = []
fields (field k v fs) = (k, v) ∷ fields fs

unfoldable pub of_fields : Dict Value → Fields
of_fields [] = end
of_fields ((k, v) ∷ fs) = field k v (of_fields fs)

pub items-of_items : (vs : List Value) → items (of_items vs) ≡ vs
unfolding items of_items
items-of_items [] = refl
items-of_items (v ∷ vs) = ap (λ l. v ∷ l) (items-of_items vs)

pub fields-of_fields : (fs : Dict Value) → fields (of_fields fs) ≡ fs
unfolding fields of_fields
fields-of_fields [] = refl
fields-of_fields ((k, v) ∷ fs) = ap (λ l. (k, v) ∷ l) (fields-of_fields fs)

-- `k.(int64)` succeeds with the index i.
is_index : ℕ → Value → Bool
is_index i (Value.int IntKind.int64 (pos n)) = n == i
is_index i _ = false

sequential_from : ℕ → List Value → Bool
sequential_from i [] = true
sequential_from i (k ∷ ks) = is_index i k && sequential_from (i + 1) ks

unfoldable pub is_sequential : Items → Bool
unfolding sequential_from is_index items
is_sequential ks = sequential_from 0 (items ks)
