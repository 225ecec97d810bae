-- ===== src/Batch.antt =====
-- pkg/batch/batch.go: a batch of jobs as its row holds it.
pub mod Repository
pub mod Alone
pub mod Finish
pub mod Failures
pub mod Prune
pub mod Progress
mod Tests
use laravel_queue_go.Prelude.{
  ℕ, zero, ◌+◌, ◌*◌, ◌/◌, Bool, true, false, Option, none, some, List, if◌then◌else◌, ◌==◌,
}
use laravel_queue_go.Prelude.Bytes.{Bytes}
use laravel_queue_go.Prelude.Int.{
  ℤ, pos, negsuc, ◌+ℤ◌, ltb_ℤ, scale, wrap_int64, neg_ℕ, neg_ℤ, quot_ℤ,
}

-- Times are nanoseconds from some moment.
pub record Batch : Type 0 where
  pub id : Bytes
  pub name : Bytes
  pub total_jobs : ℤ
  pub pending_jobs : ℤ
  pub failed_jobs : ℤ
  pub failed_job_ids : List Bytes
  pub options : Bytes
  pub cancelled_at : Option ℤ
  pub created_at : ℤ
  pub finished_at : Option ℤ

abbrev pub is_some : {A : Type 0} → Option A → Bool
is_some none = false
is_some (some a) = true

abbrev pub cancelled : Batch → Bool
cancelled b = is_some b.cancelled_at

abbrev pub finished : Batch → Bool
finished b = is_some b.finished_at

abbrev pub has_failures : Batch → Bool
has_failures b = ltb_ℤ (pos 0) b.failed_jobs

-- Go's `-` and `*` wrap, and its `/` rounds towards 0.
abbrev pub percentage : ℤ → ℤ → ℤ
percentage (pos zero) pending = pos 0
percentage total pending =
    wrap_int64 (quot_ℤ (wrap_int64 (scale 100 (wrap_int64 (total +ℤ neg_ℤ pending)))) total)

abbrev pub progress : Batch → ℤ
progress b = percentage b.total_jobs b.pending_jobs
