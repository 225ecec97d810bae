-- ===== src/Queue/Tests/Managers.antt =====
-- A manager with one middleware in an array of two places, and its workers.
use laravel_queue_go.Prelude.{ℕ, ◌*◌, ◌≡◌, refl, arith, [], ◌∷◌, ◌++◌, none, false}
use laravel_queue_go.Prelude.Bytes.{codes}
use laravel_queue_go.Prelude.Int.{pos}
use laravel_queue_go.Middleware.Pipeline.{Middleware}
use laravel_queue_go.Middleware.Slices.{Slice, Heap, Growth, contents}
use laravel_queue_go.Middleware.Slices.Laws.{IsValid}
use laravel_queue_go.Queue.Manager.{Manager, Store, worker, as_worker, use_on_worker}
use laravel_queue_go.Queue.Manager.Sharing.{use_each, worker-use_each, use_on_worker-shared}
use laravel_queue_go.Queue.Redis.Memory.{memory}
use laravel_queue_go.Queue.RedisDriver.{State}
use laravel_queue_go.Queue.Sample.Driver.{sample_driver, sample_queue}
use laravel_queue_go.Queue.Worker.{HandlerError, Running, WorkerOptions, new_worker}

abbrev Sample : Type 0
Sample = Middleware HandlerError (Running (State memory))

abbrev plain : Sample
plain next = next

abbrev skip : Sample
skip next r = (none, r)

abbrev doubling : Growth
doubling = record { capacity = λ cap needed. 2 * needed; enough = λ cap needed. omega arith }

abbrev one_used : Slice
one_used = record { array = 1; len = 1; cap = 2 }

abbrev one_array : Heap Sample
one_array = record { next = 2; cells = λ q. plain ∷ [] }

one_used-IsValid : IsValid one_array one_used
one_used-IsValid = record { given = omega arith; filled = omega arith; fits = omega arith }

abbrev sample_manager : Manager (State memory)
sample_manager = record {
  driver = sample_driver;
  handlers = [];
  default_handler = none;
  middleware = one_used;
  connection = codes "redis";
}

abbrev sample_store : Store (State memory) ℕ
sample_store = record { arrays = one_array; bus = [] }

abbrev sample_options : WorkerOptions
sample_options = record {
  queue = sample_queue;
  concurrency = pos 1;
  max_jobs = pos 0;
  max_time = pos 0;
  sleep = pos 0;
  stop_on_empty = false;
}

worker-use_each_example :
    as_worker
      (worker sample_options sample_manager)
      (use_each doubling ((skip ∷ []) ∷ (plain ∷ []) ∷ []) sample_manager sample_store).1
    ≡ new_worker sample_driver sample_options [] none (contents one_array one_used) (codes "redis")
worker-use_each_example =
    worker-use_each doubling sample_options ((skip ∷ []) ∷ (plain ∷ []) ∷ []) sample_manager
      sample_store one_used-IsValid

use_on_worker-shared_example :
    let (w, st1) =
      use_on_worker doubling (skip ∷ []) (worker sample_options sample_manager) sample_store in
    let (w', st2) =
      use_on_worker doubling (plain ∷ []) (worker sample_options sample_manager) st1 in
    (as_worker w st2).pipeline ≡ contents one_array one_used ++ plain ∷ []
use_on_worker-shared_example =
    use_on_worker-shared doubling sample_options sample_options (skip ∷ []) (plain ∷ [])
      sample_manager sample_store one_used-IsValid refl (omega arith)
