-- ===== src/Prelude/Int.antt =====
-- Signed integers over the native numbers, with the range of Go's int64.
use laravel_queue_go.Prelude.{
  ℕ, suc, ◌+◌, ◌-◌, ◌*◌, ◌/◌, ◌%◌, ◌^◌, ◌≤◌, Bool, ltb, leb, if◌then◌else◌, ◌==◌,
}

-- `negsuc n` is -(n + 1).
pub data ℤ : Type 0 where
  pos : ℕ → ℤ
  negsuc : ℕ → ℤ

abbrev pub pos_part : ℤ → ℕ
pos_part (pos n) = n
pos_part (negsuc n) = 0

abbrev pub neg_part : ℤ → ℕ
neg_part (pos n) = 0
neg_part (negsuc n) = suc n

-- a - b, as an integer.
abbrev pub sub_ℕ : ℕ → ℕ → ℤ
sub_ℕ a b = if leb b a then pos (a - b) else negsuc (b - a - 1)

-- The integer -n.
abbrev pub neg_ℕ : ℕ → ℤ
neg_ℕ n = if n == 0 then pos 0 else negsuc (n - 1)

infixl 65 ◌+ℤ◌
infix 50 ◌≤ℤ◌
unfoldable pub ◌+ℤ◌ : ℤ → ℤ → ℤ
a +ℤ b = sub_ℕ (pos_part a + pos_part b) (neg_part a + neg_part b)

abbrev pub ◌≤ℤ◌ : ℤ → ℤ → Type 0
a ≤ℤ b = pos_part a + neg_part b ≤ pos_part b + neg_part a

abbrev pub leb_ℤ : ℤ → ℤ → Bool
leb_ℤ a b = leb (pos_part a + neg_part b) (pos_part b + neg_part a)

abbrev pub ltb_ℤ : ℤ → ℤ → Bool
ltb_ℤ a b = ltb (pos_part a + neg_part b) (pos_part b + neg_part a)

-- The values of Go's int64 and of its 64-bit int.
abbrev pub max_int64 : ℕ
max_int64 = 2 ^ 63 - 1

abbrev pub InInt64 : ℤ → Type 0
InInt64 z = (pos_part z ≤ max_int64) × (neg_part z ≤ max_int64 + 1)

abbrev pub max_uint64 : ℕ
max_uint64 = 2 ^ 64 - 1

-- The int64 with the low 64 bits of an integer: what Go's + and * leave.
unfoldable pub wrap_int64 : ℤ → ℤ
wrap_int64 (pos n) =
    let u = n % 2 ^ 64 in if leb u max_int64 then pos u else negsuc (max_uint64 - u)
wrap_int64 (negsuc n) =
    let u = n % 2 ^ 64 in if leb u max_int64 then negsuc u else pos (max_uint64 - u)

-- A multiple by a natural number.
unfoldable pub scale : ℕ → ℤ → ℤ
scale k (pos n) = pos (k * n)
scale k (negsuc n) = neg_ℕ (k * suc n)

abbrev pub neg_ℤ : ℤ → ℤ
neg_ℤ (pos n) = neg_ℕ n
neg_ℤ (negsuc n) = pos (suc n)

-- The quotient that Go's / gives, rounded towards 0; the divisor is not 0.
abbrev pub quot_ℤ : ℤ → ℤ → ℤ
quot_ℤ (pos a) (pos b) = pos (a / b)
quot_ℤ (pos a) (negsuc b) = neg_ℕ (a / suc b)
quot_ℤ (negsuc a) (pos b) = neg_ℕ (suc a / b)
quot_ℤ (negsuc a) (negsuc b) = pos (suc a / suc b)
