-- ===== src/Batch/Repository.antt =====
-- pkg/batch/repository.go: the statements on the table of batches, one function per method. A column
-- of numbers is unbounded, and the text of an identifier the uuid package's.
use laravel_queue_go.Prelude.{
  ℕ, Bool, false, Option, none, some, List, [], ◌∷◌, ◌++◌, if◌then◌else◌,
}
use laravel_queue_go.Prelude.Bytes.{Bytes, codes, ◌=b◌}
use laravel_queue_go.Prelude.Int.{ℤ, pos, negsuc, ◌+ℤ◌, ltb_ℤ, neg_ℤ}
use laravel_queue_go.Prelude.Result.{Result, ok, err, panic, out_of_fuel}
use laravel_queue_go.DbUtil.{valid_table_name}
use laravel_queue_go.Sql.{
  Table, SetOrder, at_once, left_to_right, Site, exec, query, first, labelled, and_then,
}
use laravel_queue_go.Middleware.Counter.{is_one}
use laravel_queue_go.Batch.{Batch, is_some}

-- A row, with `failed_job_ids` and `options` as their JSON texts.
pub record Row : Type 0 where
  pub id : Bytes
  pub name : Bytes
  pub total_jobs : ℤ
  pub pending_jobs : ℤ
  pub failed_jobs : ℤ
  pub failed_job_ids : Bytes
  pub options : Bytes
  pub cancelled_at : Option ℤ
  pub created_at : ℤ
  pub finished_at : Option ℤ

pub record CreateOptions : Type 0 where
  pub name : Bytes
  pub total_jobs : ℤ
  pub allow_failures : Bool
  pub on_finish : Bytes
  pub on_success : Bytes
  pub on_error : Bytes

-- encoding/json on a list of strings and on the map of options, and Scan; `unmarshal` is what
-- Unmarshal leaves in a nil slice. `find_scan` and `cancelled_scan` are the errors that Scan has for
-- the columns that Find and IsCancelled select of a row, such as one for a NULL in a string.
pub record Codec (E : Type 0) : Type 0 where
  pub find_scan : Row → Option E
  pub cancelled_scan : Row → Option E
  pub marshal : List Bytes → Bytes
  pub unmarshal : Bytes → List Bytes
  pub marshal_options : CreateOptions → Bytes

-- The table's name that NewRepository takes.
unfoldable pub repository_table : {E : Type 0} → (Bytes → E) → Bytes → Result E Bytes
repository_table invalid name =
    let table = if name =b [] then codes "job_batches" else name in
    if valid_table_name table then ok table else err (invalid table)

-- What the SET clauses of the statements do to a row. The CASE of DecrementPendingJobs reads
-- `pending_jobs`, which is assigned before it.
abbrev pub decremented : SetOrder → ℤ → Row → Row
decremented at_once now r = record r {
  pending_jobs = r.pending_jobs +ℤ negsuc 0;
  finished_at = if is_one r.pending_jobs then some now else r.finished_at;
}
decremented left_to_right now r = record r {
  pending_jobs = r.pending_jobs +ℤ negsuc 0;
  finished_at = if is_one (r.pending_jobs +ℤ negsuc 0) then some now else r.finished_at;
}

abbrev pub with_failure : Bytes → Row → Row
with_failure text r = record r { failed_jobs = r.failed_jobs +ℤ pos 1; failed_job_ids = text }

abbrev pub cancelled_row : ℤ → Row → Row
cancelled_row now r = record r { cancelled_at = some now }

abbrev pub finished_before : ℤ → Option ℤ → Bool
finished_before cutoff none = false
finished_before cutoff (some t) = ltb_ℤ t cutoff

-- What Find makes of a row.
unfoldable pub scanned : {E : Type 0} → Codec E → Row → Batch
scanned json r = record {
  id = r.id;
  name = r.name;
  total_jobs = r.total_jobs;
  pending_jobs = r.pending_jobs;
  failed_jobs = r.failed_jobs;
  failed_job_ids = if r.failed_job_ids =b [] then [] else json.unmarshal r.failed_job_ids;
  options = r.options;
  cancelled_at = r.cancelled_at;
  created_at = r.created_at;
  finished_at = r.finished_at;
}

-- The row that Create inserts.
abbrev pub new_row : {E : Type 0} → Codec E → CreateOptions → Bytes → ℤ → Row
new_row json opts id now = record {
  id = id;
  name = opts.name;
  total_jobs = opts.total_jobs;
  pending_jobs = opts.total_jobs;
  failed_jobs = pos 0;
  failed_job_ids = codes "[]";
  options = json.marshal_options opts;
  cancelled_at = none;
  created_at = now;
  finished_at = none;
}

-- The batch that Create returns.
abbrev pub new_batch : {E : Type 0} → Codec E → CreateOptions → Bytes → ℤ → Batch
new_batch json opts id now = record {
  id = id;
  name = opts.name;
  total_jobs = opts.total_jobs;
  pending_jobs = opts.total_jobs;
  failed_jobs = pos 0;
  failed_job_ids = [];
  options = json.marshal_options opts;
  cancelled_at = none;
  created_at = now;
  finished_at = none;
}

abbrev pub has_id : Bytes → Row → Bool
has_id id r = r.id =b id

module _ (T : Table Row) {E W : Type 0} (site : Site T E W) (json : Codec E) where
  open T use {Db, insert, update, delete}

  abbrev pub scan : Option E → Row → Result E Row
  scan none r = ok r
  scan (some e) r = err e

  -- The row that Scan reads, with the error that it has for the row's columns.
  abbrev pub scan_first : (Row → Option E) → Result E Row → Result E Row
  scan_first columns (ok r) = scan (columns r) r
  scan_first columns (err e) = err e
  scan_first columns panic = panic
  scan_first columns out_of_fuel = out_of_fuel

  unfoldable pub find_row : (Row → Option E) → Bytes → W → Result E Row × W
  find_row columns id s =
      and_then T site (λ rs s'. (scan_first columns (first T site rs), s'))
        (query T site (has_id id) s)

  unfoldable pub find : Bytes → W → Result E Batch × W
  find id s =
      and_then T site (λ r s'. (ok (scanned json r), s'))
        (labelled T site (codes "batch: find " ++ id) (find_row json.find_scan id s))

  unfoldable pub is_cancelled : Bytes → W → Result E Bool × W
  is_cancelled id s =
      and_then T site (λ r s'. (ok (is_some r.cancelled_at), s'))
        (labelled T site (codes "batch: is_cancelled " ++ id) (find_row json.cancelled_scan id s))

  unfoldable pub create : Bytes → CreateOptions → W → Result E Batch × W
  create id opts s =
      let now = site.time s in
      labelled T site (codes "batch: create") (
        exec T site (λ d. (new_batch json opts id now, insert (λ n. new_row json opts id now) d)) s)

  unfoldable pub update_row : Bytes → (Row → Row) → W → Result E (Unit {0}) × W
  update_row id f s = exec T site (λ d. (tt, update (has_id id) f d)) s

  unfoldable pub decrement_pending_jobs : Bytes → W → Result E Batch × W
  decrement_pending_jobs id s =
      and_then T site (λ _. find id)
        (labelled T site (codes "batch: decrement_pending " ++ id)
          (update_row id (decremented T.set_order (site.time s)) s))

  unfoldable pub increment_failed_jobs : Bytes → Bytes → W → Result E (Unit {0}) × W
  increment_failed_jobs id job_id s = labelled T site (codes "batch: increment_failed " ++ id) (
      and_then T site
        (λ b. update_row id (with_failure (json.marshal (b.failed_job_ids ++ job_id ∷ []))))
        (find id s))

  unfoldable pub cancel : Bytes → W → Result E (Unit {0}) × W
  cancel id s =
      labelled T site (codes "batch: cancel " ++ id) (update_row id (cancelled_row (site.time s)) s)

  -- RowsAffected gives the number of rows.
  unfoldable pub prune : ℤ → W → Result E ℕ × W
  prune older_than s =
      let cutoff = site.time s +ℤ neg_ℤ older_than in
      labelled T site (codes "batch: prune")
        (exec T site (λ d. delete (λ r. finished_before cutoff r.finished_at) d) s)
