-- ===== src/Queue/Redis/Sets.antt =====
-- What the commands on sorted sets keep: the order by score, and how often a payload stands in them.
use laravel_queue_go.Prelude.{
  ℕ, zero, suc, ◌+◌, ◌≡◌, refl, ap, Bool, true, false, List, [], ◌∷◌, ◌++◌, take, drop, length, All,
  arith, if◌then◌else◌, Bool-cases, inl, inr,
}
use laravel_queue_go.Prelude.Bytes.{Bytes, ◌=b◌, eq_iff}
use laravel_queue_go.Prelude.Dict.{remove}
use laravel_queue_go.Prelude.Int.{ℤ, leb_ℤ, ◌≤ℤ◌}
use laravel_queue_go.Queue.Redis.{SortedSet, members, before, rank_in, up_to}

-- How often a payload stands in a list.
unfoldable pub count : Bytes → List Bytes → ℕ
count x [] = 0
count x (y ∷ ys) = (if y =b x then 1 else 0) + count x ys

abbrev pub one_if : Bool → ℕ
one_if b = if b then 1 else 0

pub count-append : (x : Bytes) (xs ys : List Bytes) → count x (xs ++ ys) ≡ count x xs + count x ys
unfolding count
count-append x [] ys = omega arith
count-append x (y ∷ xs) ys = omega (arith, count-append x xs ys)

pub count-cons : (x y : Bytes) (ys : List Bytes) → count x (y ∷ ys) ≡ one_if (y =b x) + count x ys
unfolding count
count-cons x y ys = refl

pub count-nil : (x : Bytes) → count x [] ≡ 0
unfolding count
count-nil x = refl

pub count-drop-take :
    (x : Bytes) (n : ℕ) (xs : List Bytes) → count x (take n xs) + count x (drop n xs) ≡ count x xs
unfolding count
count-drop-take x zero xs = omega arith
count-drop-take x (suc n) [] = omega arith
count-drop-take x (suc n) (y ∷ xs) = omega (arith, count-drop-take x n xs)

pub count-remove :
    (x m : Bytes) (z : SortedSet)
    → count x (members (remove m z)) ≡ (if m =b x then 0 else count x (members z))
unfolding count remove
count-remove x m [] = ground arith
count-remove x m ((n, s) ∷ z) =
    ground (arith, eq_iff n m, eq_iff m x, eq_iff n x, count-remove x m z)

pub count-rank_in :
    (x m : Bytes) (s : ℤ) (z : SortedSet)
    → count x (members (rank_in (m, s) z)) ≡ one_if (m =b x) + count x (members z)
unfolding count rank_in
count-rank_in x m s [] = refl
count-rank_in x m s ((n, t) ∷ z) = elim (Bool-cases (before (m, s) (n, t))) [
  | inl here ↦ rw here refl
  | inr later ↦ rw later (omega (arith, count-rank_in x m s z))
]

-- By score.
abbrev pub IsSorted : SortedSet → Type 0
IsSorted [] = Unit
IsSorted ((m, s) ∷ z) = All (λ e. s ≤ℤ e.1) z × IsSorted z

pub map-drop : (n : ℕ) (z : SortedSet) → members (drop n z) ≡ drop n (members z)
map-drop zero z = refl
map-drop (suc n) [] = refl
map-drop (suc n) (e ∷ z) = map-drop n z

All-remove :
    (t : ℤ) (m : Bytes) (z : SortedSet) → All (λ e. t ≤ℤ e.1) z → All (λ e. t ≤ℤ e.1) (remove m z)
unfolding remove
All-remove t m [] h = tt
All-remove t m ((n, s) ∷ z) h = elim (Bool-cases (n =b m)) [
  | inl gone ↦ rw gone (All-remove t m z h.1)
  | inr kept ↦ rw kept (h.0, All-remove t m z h.1)
]

pub remove-IsSorted : (m : Bytes) (z : SortedSet) → IsSorted z → IsSorted (remove m z)
unfolding remove
remove-IsSorted m [] h = tt
remove-IsSorted m ((n, s) ∷ z) h = elim (Bool-cases (n =b m)) [
  | inl gone ↦ rw gone (remove-IsSorted m z h.1)
  | inr kept ↦ rw kept (All-remove s m z h.0, remove-IsSorted m z h.1)
]

All-rank_in :
    (t : ℤ) (m : Bytes) (s : ℤ) (z : SortedSet)
    → t ≤ℤ s
    → All (λ e. t ≤ℤ e.1) z
    → All (λ e. t ≤ℤ e.1) (rank_in (m, s) z)
unfolding rank_in
All-rank_in t m s [] le h = (le, tt)
All-rank_in t m s (f ∷ z) le h = elim (Bool-cases (before (m, s) f)) [
  | inl here ↦ rw here (le, h)
  | inr later ↦ rw later (h.0, All-rank_in t m s z le h.1)
]

All-mono : (s t : ℤ) (z : SortedSet) → s ≤ℤ t → All (λ e. t ≤ℤ e.1) z → All (λ e. s ≤ℤ e.1) z
All-mono s t [] le h = tt
All-mono s t (e ∷ z) le h = (omega (arith, h.0), All-mono s t z le h.1)

before-le : (m n : Bytes) (s t : ℤ) → before (m, s) (n, t) ≡ true → s ≤ℤ t
unfolding before
before-le m n s t h = ground arith

not_before-le : (m n : Bytes) (s t : ℤ) → before (m, s) (n, t) ≡ false → t ≤ℤ s
unfolding before
not_before-le m n s t h = ground arith

pub rank_in-IsSorted :
    (m : Bytes) (s : ℤ) (z : SortedSet) → IsSorted z → IsSorted (rank_in (m, s) z)
unfolding rank_in
rank_in-IsSorted m s [] h = (tt, tt)
rank_in-IsSorted m s ((n, t) ∷ z) h = elim (Bool-cases (before (m, s) (n, t))) [
  | inl here ↦ let le = before-le m n s t here in rw here ((le, All-mono s t z le h.0), h)
  | inr later ↦
      rw later (All-rank_in t m s z (not_before-le m n s t later) h.0, rank_in-IsSorted m s z h.1)
]

pub drop-IsSorted : (n : ℕ) (z : SortedSet) → IsSorted z → IsSorted (drop n z)
drop-IsSorted zero z h = h
drop-IsSorted (suc n) [] h = tt
drop-IsSorted (suc n) (e ∷ z) h = drop-IsSorted n z h.1

-- Behind a score above `max` nothing is found.
up_to-none :
    (max s : ℤ) (z : SortedSet) → leb_ℤ s max ≡ false → All (λ e. s ≤ℤ e.1) z → up_to max z ≡ []
unfolding up_to
up_to-none max s [] gt h = refl
up_to-none max s ((n, t) ∷ z) gt h =
    let above : leb_ℤ t max ≡ false = ground (arith, h.0) in rw above (up_to-none max s z gt h.1)

-- What ZRANGEBYSCORE finds is a first part of the set.
pub up_to-take :
    (max : ℤ) (z : SortedSet) → IsSorted z → up_to max z ≡ take (length (up_to max z)) (members z)
unfolding up_to
up_to-take max [] h = refl
up_to-take max ((m, s) ∷ z) h = elim (Bool-cases (leb_ℤ s max)) [
  | inl due ↦ rw due (ap (λ l. m ∷ l) (up_to-take max z h.1))
  | inr later ↦ rw (later, up_to-none max s z later h.0) refl
]
