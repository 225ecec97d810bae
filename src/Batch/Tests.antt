-- ===== src/Batch/Tests.antt =====
-- A batch of two jobs in a table in memory.
use laravel_queue_go.Prelude.{
  All, none, some, ℕ, suc, ◌+◌, ◌≤◌, ◌≡◌, refl, ◌↔◌, true, List, [], ◌∷◌, length, arith,
}
use laravel_queue_go.Prelude.Bytes.{Bytes, codes, ◌=b◌}
use laravel_queue_go.Prelude.Int.{pos, sub_ℕ}
use laravel_queue_go.Prelude.Result.{ok}
use laravel_queue_go.Middleware.Lock.{up}
use laravel_queue_go.Sql.{Site, at_once, left_to_right}
use laravel_queue_go.Sql.Memory.{Stored, empty_table, memory}
use laravel_queue_go.Sql.Laws.{IsAlone}
use laravel_queue_go.Batch.{Batch, finished, progress}
use laravel_queue_go.Batch.Repository.{
  Row, Codec, CreateOptions, new_row, new_batch, create, decrement_pending_jobs, prune, find,
  scanned,
}
use laravel_queue_go.Batch.Alone.{Holds}
use laravel_queue_go.Batch.Finish.{says_finished, decrements, decrement_pending_jobs-finished}
use laravel_queue_go.Batch.Failures.{Shared, Steps, find_ids, done, step, ids_of, Steps-counts}
use laravel_queue_go.Batch.Prune.{Recent, cutoff, prune-Recent}
use laravel_queue_go.Batch.Progress.{progress-bounds}

-- Lists of empty strings, one byte for each.
abbrev marks : List Bytes → Bytes
marks [] = []
marks (x ∷ xs) = 49 ∷ marks xs

abbrev marked : Bytes → List Bytes
marked [] = []
marked (c ∷ cs) = [] ∷ marked cs

marked-marks : (ids : List Bytes) → length (marked (marks ids)) ≡ length ids
marked-marks [] = refl
marked-marks (x ∷ xs) = omega (arith, marked-marks xs)

abbrev sample_codec : Codec ℕ
sample_codec = record {
  find_scan = λ r. none;
  cancelled_scan = λ r. none;
  marshal = marks;
  unmarshal = marked;
  marshal_options = λ o. codes "{}";
}

-- The world is the table alone.
abbrev sample_site : Site (memory Row) ℕ (Stored Row)
sample_site = record {
  time = λ s. pos 7;
  link = λ s. up;
  db = λ s. s;
  put_db = λ d s. d;
  pass = λ s. s;
  no_rows = 0;
  wrap = λ text e. e;
}

sample_site-IsAlone : IsAlone (memory Row) sample_site
sample_site-IsAlone = record { connected = λ s. refl; db_put = λ d s. refl; db_pass = λ s. refl }

abbrev sample_options : CreateOptions
sample_options = record {
  name = codes "mails";
  total_jobs = pos 2;
  allow_failures = true;
  on_finish = [];
  on_success = [];
  on_error = [];
}

abbrev batch_id : Bytes
batch_id = codes "b1"

abbrev created : Stored Row
created = (create (memory Row) sample_site sample_codec batch_id sample_options empty_table).1

decrement_pending_jobs-finished_example :
    (b : Batch) × ((decrement_pending_jobs
        (memory Row)
        sample_site
        sample_codec
        batch_id
        (decrements (memory Row) sample_site sample_codec batch_id 1 created)).0
      ≡ ok b)
    × (b.pending_jobs ≡ sub_ℕ 2 (suc 1))
    × (finished b ≡ says_finished at_once 2 (suc 1))
decrement_pending_jobs-finished_example =
    decrement_pending_jobs-finished (memory Row) sample_site sample_codec sample_site-IsAlone
      (λ r. refl) batch_id 2 sample_options empty_table 1 refl refl

abbrev sample_row : Row
sample_row = new_row sample_codec sample_options batch_id (pos 7)

abbrev finished_row : Row
finished_row = record sample_row { id = codes "b0"; finished_at = some (pos 1) }

-- One batch that finished six nanoseconds ago, and one that is not finished.
abbrev two_batches : Stored Row
two_batches = record { content = finished_row ∷ sample_row ∷ []; next = 3 }

two_batches-Holds : Holds (memory Row) sample_site batch_id sample_row two_batches
unfolding ◌=b◌
two_batches-Holds = record { others = []; selected = refl }

prune-Recent_example :
    (n : ℕ) × ((prune (memory Row) sample_site sample_codec (pos 3) two_batches).0 ≡ ok n)
    × (n + length (prune (memory Row) sample_site sample_codec (pos 3) two_batches).1.content ≡ 2)
    × All
        (λ q. Recent (cutoff (memory Row) sample_site (pos 3) two_batches) q.finished_at)
        (prune (memory Row) sample_site sample_codec (pos 3) two_batches).1.content
    × ((find
          (memory Row)
          sample_site
          sample_codec
          batch_id
          (prune (memory Row) sample_site sample_codec (pos 3) two_batches).1).0
        ≡ ok (scanned sample_codec sample_row))
prune-Recent_example =
    prune-Recent (memory Row) sample_site sample_codec sample_site-IsAlone (pos 3) two_batches
      batch_id sample_row two_batches-Holds tt refl

-- A batch of two jobs of which no failure is recorded.
abbrev no_failures : Shared
no_failures = record {
  row = record sample_row { failed_job_ids = [] };
  reads = [];
  writes = 0;
  decrements = 0;
}

abbrev one_read : Shared
one_read = record no_failures { reads = [] ∷ [] }

one_read-Steps : Steps left_to_right sample_codec no_failures one_read
unfolding scanned ◌=b◌
one_read-Steps = step no_failures no_failures one_read (done no_failures) (find_ids no_failures)

Steps-counts_example :
    (one_read.row.pending_jobs ≡ sub_ℕ 2 one_read.decrements)
    × (finished (scanned sample_codec one_read.row)
        ≡ says_finished left_to_right 2 one_read.decrements)
    × (one_read.row.failed_jobs ≡ pos one_read.writes)
    × (length (ids_of sample_codec one_read) ≤ one_read.writes)
Steps-counts_example =
    Steps-counts sample_codec marked-marks left_to_right 2 no_failures one_read
      (refl, refl, refl, refl, refl, refl, refl) one_read-Steps

abbrev half_done : Batch
half_done = record (new_batch sample_codec sample_options batch_id (pos 7)) { pending_jobs = pos 1 }

abbrev one_pending : ℕ
one_pending = 1

progress-bounds_example :
    (q : ℕ) × (progress half_done ≡ pos q) × (q ≤ 100) × ((q ≡ 100) ↔ (one_pending ≡ 0))
progress-bounds_example =
    progress-bounds half_done 1 one_pending refl refl (omega arith) (omega arith)
