-- ===== src/Batch/Finish.antt =====
-- The count of pending jobs of a batch, and when the batch is finished.
use laravel_queue_go.Prelude.{
  ℕ, zero, suc, ◌≡◌, ap, ◌&&◌, Bool, Option, some, none, [], leb, ◌==◌, if◌then◌else◌, arith,
  Bool-cases, inl, inr,
}
use laravel_queue_go.Prelude.Bytes.{Bytes}
use laravel_queue_go.Prelude.Int.{ℤ, pos, negsuc, ◌+ℤ◌, sub_ℕ}
use laravel_queue_go.Prelude.Result.{ok}
use laravel_queue_go.Sql.{Table, SetOrder, at_once, left_to_right, Site}
use laravel_queue_go.Sql.Laws.{IsAlone}
use laravel_queue_go.Batch.Alone.{
  Holds, Holds-after_decrement, decrement_pending_jobs-Holds, create-alone, Holds-after_create,
}
use laravel_queue_go.Middleware.Counter.{is_one}
use laravel_queue_go.Batch.{Batch, is_some, finished}
use laravel_queue_go.Batch.Repository.{
  Row, CreateOptions, Codec, decremented, scanned, has_id, new_row, create, decrement_pending_jobs,
}

-- Whether a batch of `total` jobs says finished after `n` decrements: with the SET of standard SQL
-- when there are jobs and all are done; with MySQL's when there are two at least, and all but one
-- are done.
abbrev pub says_finished : SetOrder → ℕ → ℕ → Bool
says_finished at_once total n = leb 1 total && leb total n
says_finished left_to_right total n = leb 2 total && leb total (suc n)

-- `n` of `total` jobs are done.
pub record Counts (order : SetOrder) (total n : ℕ) (r : Row) : Type 0 where
  pub pending : r.pending_jobs ≡ sub_ℕ total n
  pub ended : is_some r.finished_at ≡ says_finished order total n

is_one-sub_ℕ : (total n : ℕ) → is_one (sub_ℕ total n) ≡ (total == suc n)
is_one-sub_ℕ total n = ground arith

sub_ℕ-suc : (total n : ℕ) → sub_ℕ total n +ℤ negsuc 0 ≡ sub_ℕ total (suc n)
unfolding ◌+ℤ◌
sub_ℕ-suc total n = ground arith

ended_at_once :
    (total n : ℕ) (now : ℤ) (f : Option ℤ)
    → is_some f ≡ says_finished at_once total n
    → is_some (if total == suc n then some now else f) ≡ says_finished at_once total (suc n)
ended_at_once total n now f h = elim (Bool-cases (total == suc n)) [
  | inl e ↦ rw e (ground arith)
  | inr e ↦ rw (e, h) (ground arith)
]

ended_left_to_right :
    (total n : ℕ) (now : ℤ) (f : Option ℤ)
    → is_some f ≡ says_finished left_to_right total n
    → is_some (if total == suc (suc n) then some now else f)
      ≡ says_finished left_to_right total (suc n)
ended_left_to_right total n now f h = elim (Bool-cases (total == suc (suc n))) [
  | inl e ↦ rw e (ground arith)
  | inr e ↦ rw (e, h) (ground arith)
]

pub decremented-Counts :
    (order : SetOrder) (total n : ℕ) (now : ℤ) (r : Row)
    → Counts order total n r
    → Counts order total (suc n) (decremented order now r)
decremented-Counts at_once total n now r c = record {
  pending = rw c.pending (sub_ℕ-suc total n);
  ended = rw (c.pending, is_one-sub_ℕ total n) (ended_at_once total n now r.finished_at c.ended);
}
decremented-Counts left_to_right total n now r c = record {
  pending = rw c.pending (sub_ℕ-suc total n);
  ended =
      rw (c.pending, sub_ℕ-suc total n, is_one-sub_ℕ total (suc n))
        (ended_left_to_right total n now r.finished_at c.ended);
}

module _ (T : Table Row) {E W : Type 0} (site : Site T E W) (json : Codec E) where
  -- The world after `n` calls of DecrementPendingJobs.
  abbrev pub decrements : Bytes → ℕ → W → W
  decrements id zero s = s
  decrements id (suc n) s = (decrement_pending_jobs T site json id (decrements id n s)).1

  -- A row with the identifier, of whose jobs `n` are done.
  record Done (id : Bytes) (total n : ℕ) (s : W) : Type 0 where
    row : Row
    holds : Holds T site id row s
    counts : Counts T.set_order total n row

  module _ (alone : IsAlone T site) (readable : (r : Row) → json.find_scan r ≡ none) (id : Bytes)
      (total : ℕ) where
    Done-decrement :
        (n : ℕ) (s : W)
        → Done id total n s
        → Done id total (suc n) (decrement_pending_jobs T site json id s).1
    Done-decrement n s d = record {
      row = decremented T.set_order (site.time s) d.row;
      holds =
          rw (decrement_pending_jobs-Holds T site json alone id d.row s d.holds (readable _))
            (Holds-after_decrement T site json alone id d.row s d.holds);
      counts = decremented-Counts T.set_order total n (site.time s) d.row d.counts;
    }

    Done-decrements : (n : ℕ) (s : W) → Done id total 0 s → Done id total n (decrements id n s)
    Done-decrements zero s d = d
    Done-decrements (suc n) s d = Done-decrement n (decrements id n s) (Done-decrements n s d)

    Done-after_create :
        (opts : CreateOptions) (s : W)
        → opts.total_jobs ≡ pos total
        → T.select (has_id id) (site.db s) ≡ []
        → Done id total 0 (create T site json id opts s).1
    Done-after_create opts s t e = record {
      row = new_row json opts id (site.time s);
      holds =
          rw (create-alone T site json alone id opts s)
            (Holds-after_create T site json alone id opts s e);
      counts = record { pending = rw t (ground arith); ended = ground arith };
    }

    -- On a database that answers, whose rows Find can scan and that nobody else uses: after a batch of
    -- `total` jobs is created under a new identifier, the call of DecrementPendingJobs that follows
    -- `n` such calls returns the batch with `total - n - 1` pending jobs, below 0 too. Where a SET
    -- reads the old columns, as in standard SQL, it says finished exactly when `total` is at least 1
    -- and at most `n + 1`, so that a batch of no jobs is never finished; where a SET assigns from left
    -- to right, as in MySQL, exactly when `total` is at least 2 and at most `n + 2`: one job too early,
    -- and a batch of one job never.
    pub decrement_pending_jobs-finished :
        (opts : CreateOptions) (s : W) (n : ℕ)
        → opts.total_jobs ≡ pos total
        → T.select (has_id id) (site.db s) ≡ []
        → (b : Batch) × ((decrement_pending_jobs T site json id
              (decrements id n (create T site json id opts s).1)).0
            ≡ ok b)
          × (b.pending_jobs ≡ sub_ℕ total (suc n))
          × (finished b ≡ says_finished T.set_order total (suc n))
    unfolding scanned
    decrement_pending_jobs-finished opts s n t e =
        let w = decrements id n (create T site json id opts s).1 in
        let d = Done-decrements n (create T site json id opts s).1 (Done-after_create opts s t e) in
        let c = decremented-Counts T.set_order total n (site.time w) d.row d.counts in
        (
          scanned json (decremented T.set_order (site.time w) d.row),
          ap (λ r. r.0)
              (decrement_pending_jobs-Holds T site json alone id d.row w d.holds (readable _)),
          c.pending,
          c.ended,
        )
