-- ===== src/Prelude/Bytes.antt =====
-- Go strings are byte strings: lists of numbers, with equality and the order of `<` on strings.
use Prim.Native.Char.{code}
use laravel_queue_go.Prelude.{
  ℕ, ◌≡◌, refl, ◌↔◌, Bool, true, false, ◌&&◌, List, [], ◌∷◌, arith, String, ltb, ◌==◌,
  if◌then◌else◌,
}

abbrev pub Bytes : Type 0
Bytes = List ℕ

-- The code points of a literal: its bytes, since every literal is ASCII.
abbrev pub codes : String → Bytes
codes String.[] = []
codes (String.◌∷◌ c s) = code c ∷ codes s

infix 50 ◌=b◌
unfoldable pub ◌=b◌ : Bytes → Bytes → Bool
[] =b [] = true
[] =b (y ∷ ys) = false
(x ∷ xs) =b [] = false
(x ∷ xs) =b (y ∷ ys) = x == y && xs =b ys

pub eq_iff : (xs ys : Bytes) → ((xs =b ys) ≡ true) ↔ (xs ≡ ys)
unfolding ◌=b◌
eq_iff [] [] = (λ _. refl, λ _. refl)
eq_iff [] (y ∷ ys) = ground arith
eq_iff (x ∷ xs) [] = ground arith
eq_iff (x ∷ xs) (y ∷ ys) = ground (arith, eq_iff xs ys)

-- The order in which `sort.Strings` puts keys: `leq_b a b` when not b < a.
unfoldable pub leq_b : Bytes → Bytes → Bool
leq_b [] ys = true
leq_b (x ∷ xs) [] = false
leq_b (x ∷ xs) (y ∷ ys) =
    let rest = leq_b xs ys in if ltb x y then true else if ltb y x then false else rest

pub =b-false_sym : (a b : Bytes) → (a =b b) ≡ false → (b =b a) ≡ false
=b-false_sym a b h = ground (arith, eq_iff a b, eq_iff b a)

pub =b-refl : (a : Bytes) → (a =b a) ≡ true
=b-refl a = (eq_iff a a).1 refl
