-- ===== src/Batch/Failures.antt =====
-- Several workers on one batch: each statement is atomic, and IncrementFailedJobs reads the
-- identifiers, then writes.
use laravel_queue_go.Prelude.{
  ℕ, zero, suc, ◌≤◌, ◌≡◌, refl, some, none, List, [], ◌∷◌, ◌++◌, length, length-append, get_elem?,
  All, arith, Bool-cases, inl, inr,
}
use laravel_queue_go.Prelude.Bytes.{Bytes, ◌=b◌}
use laravel_queue_go.Prelude.Int.{ℤ, pos, sub_ℕ, ◌+ℤ◌}
use laravel_queue_go.Sql.{SetOrder, at_once, left_to_right}
use laravel_queue_go.Batch.{finished}
use laravel_queue_go.Batch.Finish.{Counts, says_finished, decremented-Counts}
use laravel_queue_go.Batch.Repository.{
  Row, Codec, scanned, with_failure, decremented, cancelled_row,
}

-- The batch's row, what the workers that are between Find and the write have read, and how many
-- writes and decrements were made.
pub record Shared : Type 0 where
  pub row : Row
  pub reads : List (List Bytes)
  pub writes : ℕ
  pub decrements : ℕ

pub data Step {E : Type 0} (order : SetOrder) (json : Codec E) : Shared → Shared → Type 0 where
  find_ids :
      (s : Shared)
      → Step order json s (record s { reads = (scanned json s.row).failed_job_ids ∷ s.reads })
  write_ids :
      (s : Shared) (i : ℕ) (ids : List Bytes) (job_id : Bytes)
      → get_elem? s.reads i ≡ some ids
      → Step order json s (record s {
        row = with_failure (json.marshal (ids ++ job_id ∷ [])) s.row;
        writes = suc s.writes;
      })
  decrement :
      (s : Shared) (now : ℤ)
      → Step order json s
          (record s { row = decremented order now s.row; decrements = suc s.decrements })
  cancel_row :
      (s : Shared) (now : ℤ) → Step order json s (record s { row = cancelled_row now s.row })

pub data Steps {E : Type 0} (order : SetOrder) (json : Codec E) : Shared → Shared → Type 0 where
  done : (s : Shared) → Steps order json s s
  step : (s t u : Shared) → Steps order json s t → Step order json t u → Steps order json s u

-- A batch of `total` jobs, no failure yet and no worker at it.
abbrev pub Fresh : {E : Type 0} → Codec E → ℕ → Shared → Type 0
Fresh json total s =
    (s.row.pending_jobs ≡ pos total)
    × (s.row.finished_at ≡ none)
    × (s.decrements ≡ 0)
    × (s.row.failed_jobs ≡ pos 0)
    × (json.unmarshal s.row.failed_job_ids ≡ [])
    × (s.reads ≡ [])
    × (s.writes ≡ 0)

-- What json.Marshal and json.Unmarshal keep of a list of any strings.
abbrev pub KeepsLength : {E : Type 0} → Codec E → Type 0
KeepsLength json = (ids : List Bytes) → length (json.unmarshal (json.marshal ids)) ≡ length ids

module _ {E : Type 0} (json : Codec E) where
  abbrev pub ids_of : Shared → List Bytes
  ids_of s = (scanned json s.row).failed_job_ids

  record IsCounted (order : SetOrder) (total : ℕ) (s : Shared) : Type 0 where
    counts : Counts order total s.decrements s.row
    failures : s.row.failed_jobs ≡ pos s.writes
    recorded : length (json.unmarshal s.row.failed_job_ids) ≤ s.writes
    read_before : All (λ ids. length ids ≤ s.writes) s.reads

  length-ids_of : (s : Shared) → length (ids_of s) ≤ length (json.unmarshal s.row.failed_job_ids)
  unfolding scanned
  length-ids_of s = elim (Bool-cases (s.row.failed_job_ids =b [])) [
    | inl h ↦ rw h (omega arith)
    | inr h ↦ rw h (omega arith)
  ]

  All-suc :
      (n : ℕ) (ls : List (List Bytes))
      → All (λ ids. length ids ≤ n) ls
      → All (λ ids. length ids ≤ suc n) ls
  All-suc n [] h = tt
  All-suc n (l ∷ ls) (h, hs) = (omega (arith, h), All-suc n ls hs)

  All-get_elem? :
      (n : ℕ) (ls : List (List Bytes)) (i : ℕ) (ids : List Bytes)
      → All (λ l. length l ≤ n) ls
      → get_elem? ls i ≡ some ids
      → length ids ≤ n
  All-get_elem? n [] i ids h e = cc e
  All-get_elem? n (l ∷ ls) zero ids (h, hs) e = grind (arith, e, h)
  All-get_elem? n (l ∷ ls) (suc i) ids (h, hs) e = All-get_elem? n ls i ids hs e

  decremented-failures :
      (o : SetOrder) (now : ℤ) (r : Row)
      → ((decremented o now r).failed_jobs ≡ r.failed_jobs)
        × ((decremented o now r).failed_job_ids ≡ r.failed_job_ids)
  decremented-failures at_once now r = (refl, refl)
  decremented-failures left_to_right now r = (refl, refl)

  pos-suc : (n : ℕ) → pos n +ℤ pos 1 ≡ pos (suc n)
  unfolding ◌+ℤ◌
  pos-suc n = ground arith

  Step-IsCounted :
      KeepsLength json
      → (order : SetOrder) (total : ℕ) (s t : Shared) → Step order json s t
      → IsCounted order total s
      → IsCounted order total t
  Step-IsCounted keep order total _ _ (find_ids s) c = record {
    counts = record { pending = c.counts.pending; ended = c.counts.ended };
    failures = c.failures;
    recorded = c.recorded;
    read_before = (omega (arith, length-ids_of s, c.recorded), c.read_before);
  }
  Step-IsCounted keep order total _ _ (write_ids s i ids job_id e) c = record {
    counts = record { pending = c.counts.pending; ended = c.counts.ended };
    failures = rw c.failures (pos-suc s.writes);
    recorded =
        let g = All-get_elem? s.writes s.reads i ids c.read_before e in
        omega (arith, g, keep (ids ++ job_id ∷ []), length-append ids (job_id ∷ []));
    read_before = All-suc s.writes s.reads c.read_before;
  }
  Step-IsCounted keep order total _ _ (decrement s now) c = record {
    counts = decremented-Counts order total s.decrements now s.row c.counts;
    failures = rw (decremented-failures order now s.row).0 c.failures;
    recorded = rw (decremented-failures order now s.row).1 c.recorded;
    read_before = c.read_before;
  }
  Step-IsCounted keep order total _ _ (cancel_row s now) c = record {
    counts = record { pending = c.counts.pending; ended = c.counts.ended };
    failures = c.failures;
    recorded = c.recorded;
    read_before = c.read_before;
  }

  Steps-IsCounted :
      KeepsLength json
      → (order : SetOrder) (total : ℕ) (s t : Shared) → Steps order json s t
      → IsCounted order total s
      → IsCounted order total t
  Steps-IsCounted keep order total _ _ (done s) c = c
  Steps-IsCounted keep order total _ _ (step s t u r e) c =
      Step-IsCounted keep order total t u e (Steps-IsCounted keep order total s t r c)

  Fresh-IsCounted :
      (order : SetOrder) (total : ℕ) (s : Shared) → Fresh json total s → IsCounted order total s
  Fresh-IsCounted order total s (p, e, d, f, i, r, w) = record {
    counts = record { pending = rw (p, d) (ground arith); ended = rw (e, d) (ground arith) };
    failures = rw (f, w) refl;
    recorded = rw (i, w) (omega arith);
    read_before = rw r tt;
  }

  -- Of a batch of `total` jobs with no failures, and a codec that keeps the length of a list, however
  -- the decrements, the cancellations and the reads and writes of IncrementFailedJobs of several
  -- workers are ordered: the pending jobs are `total` less the decrements; the counter of failed
  -- jobs is the number of writes, and the identifiers recorded are at most as many. Where a SET reads
  -- the old columns, the batch is finished exactly when it has jobs and the decrements are as many,
  -- or more; where it assigns from left to right, as in MySQL, exactly when it has two jobs or more
  -- and at most one is not decremented.
  pub Steps-counts :
      KeepsLength json
      → (order : SetOrder) (total : ℕ) (s t : Shared) → Fresh json total s
      → Steps order json s t
      → (t.row.pending_jobs ≡ sub_ℕ total t.decrements)
        × (finished (scanned json t.row) ≡ says_finished order total t.decrements)
        × (t.row.failed_jobs ≡ pos t.writes)
        × (length (ids_of t) ≤ t.writes)
  unfolding scanned
  Steps-counts keep order total s t f r =
      let c = Steps-IsCounted keep order total s t r (Fresh-IsCounted order total s f) in
      (c.counts.pending, c.counts.ended, c.failures, omega (arith, length-ids_of t, c.recorded))
