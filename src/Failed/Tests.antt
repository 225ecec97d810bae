-- ===== src/Failed/Tests.antt =====
-- Two failed jobs in a table in memory.
use laravel_queue_go.Prelude.{ℕ, refl, List, [], ◌∷◌}
use laravel_queue_go.Prelude.Bytes.{codes}
use laravel_queue_go.Prelude.Int.{pos}
use laravel_queue_go.Middleware.Lock.{up}
use laravel_queue_go.Sql.{Site}
use laravel_queue_go.Sql.Memory.{Stored, empty_table, memory}
use laravel_queue_go.Sql.Laws.{IsAlone}
use laravel_queue_go.Queue.Worker.{FailedRecord}
use laravel_queue_go.Failed.{FailedJob, database_provider}
use laravel_queue_go.Failed.Spec.{
  Command, do_log, do_all, do_find, do_forget, do_count, run_all, SpecRun,
}
use laravel_queue_go.Failed.Refinement.{missing, run_all-SpecRun}

abbrev sample_site : Site (memory FailedJob) ℕ (Stored FailedJob)
sample_site = record {
  time = λ s. pos 7;
  link = λ s. up;
  db = λ s. s;
  put_db = λ d s. d;
  pass = λ s. s;
  no_rows = 0;
  wrap = λ text e. e;
}

sample_site-IsAlone : IsAlone (memory FailedJob) sample_site
sample_site-IsAlone = record { connected = λ s. refl; db_put = λ d s. refl; db_pass = λ s. refl }

abbrev sample_record : FailedRecord
sample_record = record {
  uuid = [];
  connection = codes "redis";
  queue = codes "default";
  payload = codes "{}";
  exception = codes "boom";
}

abbrev commands : List Command
commands =
    do_log (codes "u1") sample_record
    ∷ do_log (codes "u2") sample_record
    ∷ do_all
    ∷ do_forget (pos 1)
    ∷ do_find (pos 1)
    ∷ do_count
    ∷ []

run_all-SpecRun_example :
    SpecRun
      (missing (memory FailedJob) sample_site)
      []
      commands
      (run_all (database_provider (memory FailedJob) sample_site) commands empty_table).0
      (run_all (database_provider (memory FailedJob) sample_site) commands empty_table).1.content
run_all-SpecRun_example =
    run_all-SpecRun (memory FailedJob) sample_site sample_site-IsAlone commands empty_table
      (record { rising = tt; below = tt })
