-- ===== src/DbUtil.antt =====
-- pkg/internal/dbutil/validate.go: the names that may stand in the text of a statement.
pub mod Tables
mod Tests
use laravel_queue_go.Prelude.{
  ℕ, ◌≡◌, refl, Bool, true, false, ◌&&◌, ◌||◌, List, [], ◌∷◌, ◌++◌, leb, ◌==◌, if◌then◌else◌, arith,
}
use laravel_queue_go.Prelude.Bytes.{Bytes}

-- `[a-zA-Z_]`.
abbrev pub is_letter : ℕ → Bool
is_letter c = leb 97 c && leb c 122 || leb 65 c && leb c 90 || c == 95

-- `[a-zA-Z0-9_]`.
abbrev pub is_word : ℕ → Bool
is_word c = is_letter c || leb 48 c && leb c 57

abbrev pub all_words : Bytes → Bool
all_words [] = true
all_words (c ∷ cs) = is_word c && all_words cs

-- The match of validTableName; `$` without the m flag is the end of the text.
abbrev pub valid_table_name : Bytes → Bool
valid_table_name [] = false
valid_table_name (c ∷ cs) = is_letter c && all_words cs
