-- ===== src/DbUtil/Tests.antt =====
-- The name of the table of batches.
use laravel_queue_go.Prelude.{ℕ, ◌≡◌, ◌↔◌, if◌then◌else◌, []}
use laravel_queue_go.Prelude.Bytes.{Bytes, codes, ◌=b◌}
use laravel_queue_go.Prelude.Result.{ok}
use laravel_queue_go.Batch.Repository.{repository_table}
use laravel_queue_go.Failed.{provider_table}
use laravel_queue_go.DbUtil.Tables.{IsName, table-IsName}

abbrev no_error : Bytes → ℕ
no_error t = 0

abbrev batches : Bytes
batches = codes "job_batches"

abbrev no_name : Bytes
no_name = []

table-IsName_example :
    ((repository_table no_error no_name ≡ ok batches)
      ↔ ((batches ≡ (if no_name =b [] then codes "job_batches" else no_name)) × IsName batches))
    × ((provider_table no_error no_name ≡ ok batches)
        ↔ ((batches ≡ (if no_name =b [] then codes "failed_jobs" else no_name)) × IsName batches))
table-IsName_example = table-IsName no_error no_name batches
