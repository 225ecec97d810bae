-- ===== src/Failed.antt =====
-- pkg/failed/database.go and provider.go: the table of failed jobs, one function per method. A query
-- is one call, its rows' errors the call's; an identifier is what AUTO_INCREMENT gave. No column
-- is NULL, so that Scan reads every row.
pub mod Order
pub mod Spec
pub mod Refinement
mod Tests
use laravel_queue_go.Prelude.{
  ℕ, Bool, true, false, Option, none, some, List, [], ◌∷◌, ◌++◌, length, if◌then◌else◌, leb, ◌==◌,
}
use laravel_queue_go.Prelude.Bytes.{Bytes, codes, ◌=b◌}
use laravel_queue_go.Prelude.Int.{ℤ, pos, negsuc}
use laravel_queue_go.Prelude.Result.{Result, ok, err}
use laravel_queue_go.DbUtil.{valid_table_name}
use laravel_queue_go.Sql.{Table, Site, exec, query, first, labelled, and_then}
use laravel_queue_go.Strconv.{format_int}
use laravel_queue_go.Queue.Worker.{FailedRecord}

pub record FailedJob : Type 0 where
  pub id : ℕ
  pub uuid : Bytes
  pub connection : Bytes
  pub queue : Bytes
  pub payload : Bytes
  pub exception : Bytes
  pub failed_at : ℤ

-- The methods of Store; uuid.NewString's text is an argument of `log`.
pub record Store (E W : Type 0) : Type 0 where
  pub log : Bytes → FailedRecord → W → Result E (Unit {0}) × W
  pub find : ℤ → W → Result E FailedJob × W
  pub all : W → Result E (List FailedJob) × W
  pub forget : ℤ → W → Result E (Unit {0}) × W
  pub flush : W → Result E (Unit {0}) × W
  pub count : W → Result E ℕ × W

-- The table's name that NewDatabaseProvider takes.
unfoldable pub provider_table : {E : Type 0} → (Bytes → E) → Bytes → Result E Bytes
provider_table invalid name =
    let table = if name =b [] then codes "failed_jobs" else name in
    if valid_table_name table then ok table else err (invalid table)

abbrev pub has_id : ℤ → FailedJob → Bool
has_id (pos n) r = r.id == n
has_id (negsuc n) r = false

abbrev pub any : FailedJob → Bool
any r = true

-- ORDER BY id DESC.
abbrev pub insert_by_id : FailedJob → List FailedJob → List FailedJob
insert_by_id x [] = x ∷ []
insert_by_id x (y ∷ ys) =
    let rest = insert_by_id x ys in if leb y.id x.id then x ∷ y ∷ ys else y ∷ rest

abbrev pub latest_first : List FailedJob → List FailedJob
latest_first [] = []
latest_first (x ∷ xs) = insert_by_id x (latest_first xs)

-- The row that Log inserts.
abbrev pub entry : Bytes → FailedRecord → ℤ → ℕ → FailedJob
entry new_uuid r now n = record {
  id = n;
  uuid = if r.uuid =b [] then new_uuid else r.uuid;
  connection = r.connection;
  queue = r.queue;
  payload = r.payload;
  exception = r.exception;
  failed_at = now;
}

module _ (T : Table FailedJob) {E W : Type 0} (site : Site T E W) where
  open T use {Db, insert, delete}

  unfoldable pub log : Bytes → FailedRecord → W → Result E (Unit {0}) × W
  log new_uuid r s =
      labelled T site (codes "failed_jobs: log")
        (exec T site (λ d. (tt, insert (entry new_uuid r (site.time s)) d)) s)

  unfoldable pub find : ℤ → W → Result E FailedJob × W
  find id s =
      labelled T site (codes "failed_jobs: find " ++ format_int id)
        (and_then T site (λ rs s'. (first T site rs, s')) (query T site (has_id id) s))

  unfoldable pub all : W → Result E (List FailedJob) × W
  all s =
      labelled T site (codes "failed_jobs: all")
        (and_then T site (λ rs s'. (ok (latest_first rs), s')) (query T site any s))

  unfoldable pub forget : ℤ → W → Result E (Unit {0}) × W
  forget id s =
      labelled T site (codes "failed_jobs: forget " ++ format_int id)
        (exec T site (λ d. (tt, (delete (has_id id) d).1)) s)

  unfoldable pub flush : W → Result E (Unit {0}) × W
  flush s =
      labelled T site (codes "failed_jobs: flush") (exec T site (λ d. (tt, (delete any d).1)) s)

  -- SELECT COUNT(*).
  unfoldable pub count : W → Result E ℕ × W
  count s =
      labelled T site (codes "failed_jobs: count")
        (and_then T site (λ rs s'. (ok (length rs), s')) (query T site any s))

  abbrev pub database_provider : Store E W
  database_provider = record {
    log = log;
    find = find;
    all = all;
    forget = forget;
    flush = flush;
    count = count;
  }

-- NullProvider; `no_rows` is sql.ErrNoRows.
abbrev pub null_provider : {E W : Type 0} → E → Store E W
null_provider no_rows = record {
  log = λ u r s. (ok tt, s);
  find = λ id s. (err no_rows, s);
  all = λ s. (ok [], s);
  forget = λ id s. (ok tt, s);
  flush = λ s. (ok tt, s);
  count = λ s. (ok 0, s);
}
