-- ===== src/Failed/Spec.antt =====
-- What a store of failed jobs is: the calls of its methods on a list of jobs.
use laravel_queue_go.Prelude.{ℕ, not, List, [], ◌∷◌, ◌++◌, length}
use laravel_queue_go.Prelude.Bytes.{Bytes}
use laravel_queue_go.Prelude.Int.{ℤ}
use laravel_queue_go.Prelude.Result.{Result, ok, err, panic, out_of_fuel}
use laravel_queue_go.Sql.{filter}
use laravel_queue_go.Queue.Worker.{FailedRecord}
use laravel_queue_go.Failed.{FailedJob, Store, has_id, entry}
use laravel_queue_go.Failed.Order.{Below, reverse}

pub data Command : Type 0 where
  do_log : Bytes → FailedRecord → Command
  do_find : ℤ → Command
  do_all do_flush do_count : Command
  do_forget : ℤ → Command

pub data Reply (E : Type 0) : Type 0 where
  done crashed : Reply E
  job : FailedJob → Reply E
  jobs : List FailedJob → Reply E
  number : ℕ → Reply E
  failure : E → Reply E

abbrev pub reply : {E A W : Type 0} → (A → Reply E) → Result E A × W → Reply E × W
reply f (ok a, s) = (f a, s)
reply f (err e, s) = (failure e, s)
reply f (panic, s) = (crashed, s)
reply f (out_of_fuel, s) = (crashed, s)

abbrev pub run : {E W : Type 0} → Store E W → Command → W → Reply E × W
run p (do_log u r) s = reply (λ x. done) (p.log u r s)
run p (do_find id) s = reply job (p.find id s)
run p do_all s = reply jobs (p.all s)
run p (do_forget id) s = reply (λ x. done) (p.forget id s)
run p do_flush s = reply (λ x. done) (p.flush s)
run p do_count s = reply number (p.count s)

abbrev pub found : {E : Type 0} → E → List FailedJob → Reply E
found e [] = failure e
found e (r ∷ rs) = job r

-- What a store of failed jobs is: a list of jobs, the latest last, whose identifiers are new.
-- `missing` is the error for an identifier that no job has.
pub data Spec {E : Type 0} (missing : ℤ → E)
    : List FailedJob → Command → Reply E → List FailedJob → Type 0 where
  logged :
      (l : List FailedJob) (u : Bytes) (r : FailedRecord) (now : ℤ) (n : ℕ)
      → Below n l
      → Spec missing l (do_log u r) done (l ++ entry u r now n ∷ [])
  found_first :
      (l : List FailedJob) (id : ℤ)
      → Spec missing l (do_find id) (found (missing id) (filter (has_id id) l)) l
  listed : (l : List FailedJob) → Spec missing l do_all (jobs (reverse l)) l
  forgotten :
      (l : List FailedJob) (id : ℤ)
      → Spec missing l (do_forget id) done (filter (λ r. not (has_id id r)) l)
  flushed : (l : List FailedJob) → Spec missing l do_flush done []
  counted : (l : List FailedJob) → Spec missing l do_count (number (length l)) l

-- Commands one after the other, with their replies.
abbrev pub run_all : {E W : Type 0} → Store E W → List Command → W → List (Reply E) × W
run_all p [] s = ([], s)
run_all p (c ∷ cs) s = let r = run p c s in let rest = run_all p cs r.1 in (r.0 ∷ rest.0, rest.1)

pub data SpecRun {E : Type 0} (missing : ℤ → E)
    : List FailedJob → List Command → List (Reply E) → List FailedJob → Type 0 where
  nothing : (l : List FailedJob) → SpecRun missing l [] [] l
  one_more :
      (l m n : List FailedJob) (c : Command) (cs : List Command) (r : Reply E) (rs : List (Reply E))
      → Spec missing l c r m
      → SpecRun missing m cs rs n
      → SpecRun missing l (c ∷ cs) (r ∷ rs) n
