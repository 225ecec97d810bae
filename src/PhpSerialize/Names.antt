-- ===== src/PhpSerialize/Names.antt =====
-- stripVisibility and ParsePropertyName of pkg/phpserialize/decoder.go, with what they take from
-- the package strings.
pub mod Agree
use laravel_queue_go.Prelude.{
  ℕ, true, false, Option, none, some, [], ◌∷◌, ◌==◌, ◌&&◌, if◌then◌else◌,
}
use laravel_queue_go.Prelude.Bytes.{Bytes}

-- The text before and after the first byte c: strings.IndexByte with both slices at its result.
unfoldable pub split_first : ℕ → Bytes → Option (Bytes × Bytes)
split_first c [] = none
split_first c (x ∷ s) = elim (x == c) [
  | true ↦ some ([], s)
  | false ↦ elim (split_first c s) [ none ↦ none | some (a, b) ↦ some (x ∷ a, b) ]
]

-- The text before and after the last byte c: strings.LastIndex with both slices at its result.
unfoldable pub split_last : ℕ → Bytes → Option (Bytes × Bytes)
split_last c [] = none
split_last c (x ∷ s) = elim (split_last c s) [
  | some (a, b) ↦ some (x ∷ a, b)
  | none ↦ if x == c then some ([], s) else none
]

after_first : Bytes → Option (Bytes × Bytes) → Bytes
after_first name none = name
after_first name (some (a, b)) = b

unfoldable pub strip_visibility : Bytes → Bytes
unfolding split_first after_first
strip_visibility [] = []
strip_visibility (c ∷ s) = if c == 0 then after_first (c ∷ s) (split_first 0 s) else c ∷ s

pub data Visibility : Type 0 where
  public protected private : Visibility

pub record PropertyInfo : Type 0 where
  pub name : Bytes
  pub visibility : Visibility
  pub class_name : Bytes

is_protected : Bytes → Option Bytes
is_protected [] = none
is_protected (c ∷ []) = none
is_protected (c ∷ d ∷ s) = if c == b'*' && d == 0 then some s else none

private_name : Bytes → Option (Bytes × Bytes) → PropertyInfo
private_name raw none = record { name = raw; visibility = public; class_name = [] }
private_name raw (some (a, b)) = record { name = b; visibility = private; class_name = a }

non_public : Bytes → Bytes → Option Bytes → PropertyInfo
unfolding private_name
non_public raw s (some name) = record { name = name; visibility = protected; class_name = [] }
non_public raw s none = private_name raw (split_first 0 s)

unfoldable pub parse_property_name : Bytes → PropertyInfo
unfolding split_first is_protected non_public
parse_property_name [] = record { name = []; visibility = public; class_name = [] }
parse_property_name (c ∷ s) =
    if c == 0
    then non_public (c ∷ s) s (is_protected s)
    else record { name = c ∷ s; visibility = public; class_name = [] }
