-- ===== src/Batch/Progress.antt =====
-- The percentage of pkg/batch/batch.go.
use laravel_queue_go.Prelude.{ℕ, suc, ◌-◌, ◌*◌, ◌/◌, ◌≤◌, ◌<◌, ◌≡◌, ◌↔◌, ◌⊎◌, inl, inr, arith}
use laravel_queue_go.Prelude.Int.{pos, ◌+ℤ◌, max_int64, wrap_int64, scale, neg_ℤ}
use laravel_queue_go.Batch.{Batch, progress, percentage}

sub_pos : (t p : ℕ) → p ≤ t → pos t +ℤ neg_ℤ (pos p) ≡ pos (t - p)
unfolding ◌+ℤ◌
sub_pos t p h = ground arith

wrap_small : (n : ℕ) → n ≤ max_int64 → wrap_int64 (pos n) ≡ pos n
unfolding wrap_int64
wrap_small n h = ground arith

div_bound : (d t : ℕ) → d ≤ t → 0 < t → 100 * d / t ≤ 100
div_bound d t h p = grind arith

div_full : (d t : ℕ) → 0 < t → d < t → 100 * d / t < 100
div_full d t h p = grind arith

div_of_all : (d t : ℕ) → d ≡ t → 0 < t → 100 * d / t ≡ 100
div_of_all d t e p = grind (arith, e)

Nat-cases : (p : ℕ) → (p ≡ 0) ⊎ (0 < p)
Nat-cases p = omega arith

percentage_eq :
    (t p : ℕ)
    → p ≤ suc t
    → 100 * suc t ≤ max_int64
    → percentage (pos (suc t)) (pos p) ≡ pos (100 * (suc t - p) / suc t)
unfolding scale
percentage_eq t p le small =
    let bound = div_bound (suc t - p) (suc t) (omega arith) (omega arith) in
    rw
      (
        sub_pos (suc t) p le,
        wrap_small (suc t - p) (omega (arith, small)),
        wrap_small (100 * (suc t - p)) (omega (arith, small)),
      )
      (wrap_small (100 * (suc t - p) / suc t) (omega (arith, bound)))

-- Of a batch with jobs, of which 0 to all are pending, and not more than 92233720368547758: the
-- progress is a number from 0 to 100, and 100 exactly when no job is pending.
pub progress-bounds :
    (b : Batch) (t p : ℕ)
    → b.total_jobs ≡ pos (suc t)
    → b.pending_jobs ≡ pos p
    → p ≤ suc t
    → 100 * suc t ≤ max_int64
    → (q : ℕ) × (progress b ≡ pos q) × (q ≤ 100) × ((q ≡ 100) ↔ (p ≡ 0))
progress-bounds b t p e f le small = (
  100 * (suc t - p) / suc t,
  (rw (e, f) (percentage_eq t p le small)),
  div_bound (suc t - p) (suc t) (omega arith) (omega arith),
  (
    λ h. elim (Nat-cases p) [
      | inl z ↦ z
      | inr z ↦
          let g = div_full (suc t - p) (suc t) (omega arith) (omega (arith, z, le)) in
          absurd (omega (arith, g, h))
    ],
    λ h. div_of_all (suc t - p) (suc t) (omega (arith, h)) (omega arith),
  ),
)
