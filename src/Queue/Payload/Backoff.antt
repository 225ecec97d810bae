-- ===== src/Queue/Payload/Backoff.antt =====
-- BackoffSeconds of pkg/queue/payload.go on lists of delays.
use laravel_queue_go.Prelude.{
  ℕ, zero, suc, ◌-◌, ◌≤◌, ◌<◌, ◌≡◌, refl, ap, Option, none, some, List, [], ◌∷◌, length, get_elem?,
  arith, leb, if◌then◌else◌, Bool-cases, inl, inr,
}
use laravel_queue_go.Prelude.Int.{ℤ, pos}
use laravel_queue_go.PhpSerialize.Value.{Items, ints, slice, items}
use laravel_queue_go.Queue.Payload.{
  LaravelPayload, backoff_index, backoff_of, backoff_seconds, seconds_at, int_at,
}

module _ {A : Type 0} where
  -- Entry number i, counted from 0, or the last one where the list is shorter.
  pub nth_or_last : List A → ℕ → Option A
  nth_or_last [] i = none
  nth_or_last (z ∷ []) i = some z
  nth_or_last (z ∷ y ∷ zs) zero = some z
  nth_or_last (z ∷ y ∷ zs) (suc i) = nth_or_last (y ∷ zs) i

  nth_or_last-last :
      (z : A) (zs : List A) (i : ℕ)
      → length zs ≤ i
      → get_elem? (z ∷ zs) (length zs) ≡ nth_or_last (z ∷ zs) i
  unfolding nth_or_last
  nth_or_last-last z [] i h = refl
  nth_or_last-last z (y ∷ zs) zero h = elim h [ ]
  nth_or_last-last z (y ∷ zs) (suc i) h = nth_or_last-last y zs i (omega arith)

  nth_or_last-within : (zs : List A) (i : ℕ) → i < length zs → get_elem? zs i ≡ nth_or_last zs i
  unfolding nth_or_last
  nth_or_last-within [] i h = elim h [ ]
  nth_or_last-within (z ∷ []) zero h = refl
  nth_or_last-within (z ∷ []) (suc i) h = absurd (omega arith)
  nth_or_last-within (z ∷ y ∷ zs) zero h = refl
  nth_or_last-within (z ∷ y ∷ zs) (suc i) h = nth_or_last-within (y ∷ zs) i (omega arith)

  -- The clamped index finds that entry.
  clamped :
      (zs : List A) (i : ℕ)
      → get_elem? zs (if leb (length zs) i then length zs - 1 else i) ≡ nth_or_last zs i
  clamped [] i = unfold nth_or_last in refl
  clamped (z ∷ zs) i = elim (Bool-cases (leb (length (z ∷ zs)) i)) [
    | inl past ↦
        let last : length (z ∷ zs) - 1 ≡ length zs = omega arith in
        rw (past, last) (nth_or_last-last z zs i (ground arith))
    | inr within ↦ rw within (nth_or_last-within (z ∷ zs) i (ground arith))
  ]

  pub backoff_index-nth :
      (zs : List A) (i : ℕ)
      → get_elem? zs (backoff_index (pos i) (length zs)) ≡ nth_or_last zs (i - 1)
  unfolding backoff_index
  backoff_index-nth [] zero = unfold nth_or_last in refl
  backoff_index-nth (z ∷ zs) zero = nth_or_last-within (z ∷ zs) 0 (omega arith)
  backoff_index-nth zs (suc i) = let same : suc i - 1 ≡ i = omega arith in rw same (clamped zs i)

-- The delay that a list of delays decoded from JSON prescribes for an attempt from 0 on: attempts 0
-- and 1 take the first entry, attempt i entry i, counted from 1, and attempts past the end the last
-- one; an empty list, like an entry that is no number, means no delay.
pub backoff_seconds-slice :
    (p : LaravelPayload) (i : ℕ) (vs : Items)
    → p.backoff ≡ slice vs
    → backoff_seconds p (pos i) ≡ seconds_at (nth_or_last (items vs) (i - 1))
unfolding backoff_seconds backoff_of
backoff_seconds-slice p i vs e = rw (e, backoff_of) (ap seconds_at (backoff_index-nth (items vs) i))

-- The same for a list that WithBackoff was given as []int.
pub backoff_seconds-ints :
    (p : LaravelPayload) (i : ℕ) (zs : List ℤ)
    → p.backoff ≡ ints zs
    → backoff_seconds p (pos i) ≡ int_at (nth_or_last zs (i - 1))
unfolding backoff_seconds backoff_of
backoff_seconds-ints p i zs e = rw (e, backoff_of) (ap int_at (backoff_index-nth zs i))
