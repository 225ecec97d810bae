-- ===== src/Failed/Refinement.antt =====
-- The database provider of failed jobs against a list of jobs in the order in which they failed.
use laravel_queue_go.Prelude.{◌≡◌, refl, ap, ◌∙◌, sym, subst, Bool, not, List, [], ◌∷◌, ◌++◌}
use laravel_queue_go.Prelude.Bytes.{Bytes, codes}
use laravel_queue_go.Prelude.Int.{ℤ}
use laravel_queue_go.Strconv.{format_int}
use laravel_queue_go.Sql.{Table, Site, filter, first, labelled}
use laravel_queue_go.Sql.Laws.{IsAlone, db-after, exec-alone, query-alone}
use laravel_queue_go.Queue.Worker.{FailedRecord}
use laravel_queue_go.Failed.{
  FailedJob, has_id, any, entry, log, find, all, forget, flush, count, database_provider,
}
use laravel_queue_go.Failed.Spec.{
  Command, do_log, do_find, do_all, do_flush, do_count, do_forget, job, reply, run, found, Spec,
  logged, found_first, listed, forgotten, flushed, counted, run_all, SpecRun, nothing, one_more,
}
use laravel_queue_go.Failed.Order.{
  Below, Rising, latest_first-Rising, Rising-filter, Rising-append, Below-filter, Below-append,
}

filter-any : (l : List FailedJob) → filter any l ≡ l
filter-any [] = refl
filter-any (x ∷ xs) = ap (λ l. x ∷ l) (filter-any xs)

filter_none : (l : List FailedJob) → filter (λ r. not (any r)) l ≡ []
filter_none [] = refl
filter_none (x ∷ xs) = filter_none xs

module _ (T : Table FailedJob) {E W : Type 0} (site : Site T E W) where
  abbrev pub missing : ℤ → E
  missing id = site.wrap (codes "failed_jobs: find " ++ format_int id) site.no_rows

  -- The identifiers rise, and none is as large as the next.
  pub record IsValid (d : T.Db) : Type 0 where
    pub rising : Rising (T.rows d)
    pub below : Below (T.next_id d) (T.rows d)

  insert-IsValid :
      (u : Bytes) (r : FailedRecord) (now : ℤ) (d : T.Db)
      → IsValid d
      → IsValid (T.insert (entry u r now) d)
  insert-IsValid u r now d v = record {
    rising =
        subst Rising (sym (T.rows-insert (entry u r now) d))
          (Rising-append (T.rows d) (entry u r now (T.next_id d)) v.rising v.below);
    below =
        subst (Below _) (sym (T.rows-insert (entry u r now) d))
          (Below-append _ _ (T.rows d) _ (T.next_id-insert (entry u r now) d) refl v.below);
  }

  delete-IsValid : (p : FailedJob → Bool) (d : T.Db) → IsValid d → IsValid (T.delete p d).1
  delete-IsValid p d v = record {
    rising = subst Rising (sym (T.rows-delete p d)) (Rising-filter _ (T.rows d) v.rising);
    below =
        rw (T.rows-delete p d, T.next_id-delete p d)
          (Below-filter (T.next_id d) (λ r. not (p r)) (T.rows d) v.below);
  }

  -- A command's run and what it leaves of the table.
  Refines : Command → W → Type 0
  Refines c s =
      let r = run (database_provider T site) c s in
      Spec missing (T.rows (site.db s)) c r.0 (T.rows (site.db r.1)) × IsValid (site.db r.1)

  module _ (alone : IsAlone T site) where
    selected_all : (d : T.Db) → T.select any d ≡ T.rows d
    selected_all d = T.select-rows any d ∙ filter-any (T.rows d)

    log-Refines :
        (u : Bytes) (r : FailedRecord) (s : W) → IsValid (site.db s) → Refines (do_log u r) s
    unfolding Refines log
    log-Refines u r s v =
        rw
          (
            exec-alone T site alone _ s,
            db-after T site alone _ s,
            T.rows-insert (entry u r (site.time s)) (site.db s),
          )
          (
            logged (T.rows (site.db s)) u r (site.time s) (T.next_id (site.db s)) v.below,
            insert-IsValid u r (site.time s) (site.db s) v,
          )

    first-found :
        (id : ℤ) (rs : List FailedJob) (s : W)
        → reply job
            (labelled T site (codes "failed_jobs: find " ++ format_int id) (first T site rs, s))
          ≡ (found (missing id) rs, s)
    first-found id [] s = refl
    first-found id (r ∷ rs) s = refl

    find-Refines : (id : ℤ) (s : W) → IsValid (site.db s) → Refines (do_find id) s
    unfolding Refines find
    find-Refines id s v =
        rw
          (
            query-alone T site alone (has_id id) s,
            first-found id (T.select (has_id id) (site.db s)) _,
            db-after T site alone (site.db s) s,
            T.select-rows (has_id id) (site.db s),
          )
          (found_first (T.rows (site.db s)) id, v)

    all-Refines : (s : W) → IsValid (site.db s) → Refines do_all s
    unfolding Refines all
    all-Refines s v =
        rw
          (
            query-alone T site alone any s,
            db-after T site alone (site.db s) s,
            selected_all (site.db s),
            latest_first-Rising (T.rows (site.db s)) v.rising,
          )
          (listed (T.rows (site.db s)), v)

    forget-Refines : (id : ℤ) (s : W) → IsValid (site.db s) → Refines (do_forget id) s
    unfolding Refines forget
    forget-Refines id s v =
        rw
          (
            exec-alone T site alone _ s,
            db-after T site alone _ s,
            T.rows-delete (has_id id) (site.db s),
          )
          (forgotten (T.rows (site.db s)) id, delete-IsValid (has_id id) (site.db s) v)

    flush-Refines : (s : W) → IsValid (site.db s) → Refines do_flush s
    unfolding Refines flush
    flush-Refines s v =
        rw
          (
            exec-alone T site alone _ s,
            db-after T site alone _ s,
            T.rows-delete any (site.db s),
            filter_none (T.rows (site.db s)),
          )
          (flushed (T.rows (site.db s)), delete-IsValid any (site.db s) v)

    count-Refines : (s : W) → IsValid (site.db s) → Refines do_count s
    unfolding Refines count
    count-Refines s v =
        rw
          (
            query-alone T site alone any s,
            db-after T site alone (site.db s) s,
            selected_all (site.db s),
          )
          (counted (T.rows (site.db s)), v)

    run-Refines : (c : Command) (s : W) → IsValid (site.db s) → Refines c s
    run-Refines (do_log u r) s v = log-Refines u r s v
    run-Refines (do_find id) s v = find-Refines id s v
    run-Refines do_all s v = all-Refines s v
    run-Refines (do_forget id) s v = forget-Refines id s v
    run-Refines do_flush s v = flush-Refines s v
    run-Refines do_count s v = count-Refines s v

module _ (T : Table FailedJob) {E W : Type 0} (site : Site T E W) (alone : IsAlone T site) where
  -- On a database that answers and that nobody else uses: any sequence of calls of the database
  -- provider, from a table whose identifiers rise and are below the next, gives replies that the
  -- store of failed jobs allows: Log puts a job with a new identifier last, All gives the jobs
  -- latest first, Find a job with the identifier or the missing error, Forget drops the jobs with
  -- the identifier, Flush all, and Count counts them.
  pub run_all-SpecRun :
      (cs : List Command) (s : W)
      → IsValid T site (site.db s)
      → let r = run_all (database_provider T site) cs s in
        SpecRun (missing T site) (T.rows (site.db s)) cs r.0 (T.rows (site.db r.1))
  unfolding Refines
  run_all-SpecRun [] s v = nothing (T.rows (site.db s))
  run_all-SpecRun (c ∷ cs) s v =
      let r = run (database_provider T site) c s in
      let h = run-Refines T site alone c s v in
      one_more _ (T.rows (site.db r.1)) _ c cs r.0 _ h.0 (run_all-SpecRun cs r.1 h.1)
