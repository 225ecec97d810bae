-- ===== src/Queue/Manager.antt =====
-- pkg/queue/manager.go, and what a worker of pkg/queue/worker.go shares with the manager that made it:
-- the bus of events, and the array behind the slice of middleware. Maps are copied. The logger and
-- the failed-job provider are left out.
pub mod Sharing
use laravel_queue_go.Prelude.{ℕ, Option, some, none, List, []}
use laravel_queue_go.Prelude.Bytes.{Bytes}
use laravel_queue_go.Prelude.Dict.{Dict, put}
use laravel_queue_go.Events
use laravel_queue_go.Events.{Bus, EventType, new_bus}
use laravel_queue_go.Middleware.Pipeline.{Middleware}
use laravel_queue_go.Middleware.Slices.{Slice, Heap, Growth, contents, append}
use laravel_queue_go.Queue.Dispatcher.{Dispatcher, DispatcherOption, new_dispatcher}
use laravel_queue_go.Queue.Driver.{Driver}
use laravel_queue_go.Queue.Payload.{default_connection}
use laravel_queue_go.Queue.Worker.{
  HandlerError, Running, Handler, Worker, WorkerOptions, new_worker,
}

pub record Manager (S : Type 0) : Type 0 where
  pub driver : Driver S
  pub handlers : Dict (Handler S)
  pub default_handler : Option (Handler S)
  pub middleware : Slice
  pub connection : Bytes

-- A worker with the slice that its pipeline holds.
pub record ManagedWorker (S : Type 0) : Type 0 where
  pub settings : Worker S
  pub pipeline : Slice

-- What is behind the pointers: the arrays of middleware, and the bus with its listeners.
pub record Store (S L : Type 0) : Type 0 where
  pub arrays : Heap (Middleware HandlerError (Running S))
  pub bus : Bus L

-- A slice that is nil.
abbrev nil_slice : Slice
nil_slice = record { array = 0; len = 0; cap = 0 }

module _ {S : Type 0} where
  unfoldable pub register : Bytes → Handler S → Manager S → Manager S
  register job_name handler m = record m { handlers = put job_name handler m.handlers }

  unfoldable pub register_default : Handler S → Manager S → Manager S
  register_default handler m = record m { default_handler = some handler }

  unfoldable pub set_connection : Bytes → Manager S → Manager S
  set_connection name m = record m { connection = name }

  -- Manager.Worker passes the slice on as it is.
  unfoldable pub worker : WorkerOptions → Manager S → ManagedWorker S
  worker opts m = record {
    settings = new_worker m.driver opts m.handlers m.default_handler [] m.connection;
    pipeline = m.middleware;
  }

  unfoldable pub dispatcher : List (DispatcherOption S) → Manager S → Dispatcher S
  dispatcher opts m = new_dispatcher m.driver opts

module _ {S L : Type 0} where
  unfoldable pub new_manager : Driver S → Manager S × Store S L
  new_manager driver = (
    record {
      driver = driver;
      handlers = [];
      default_handler = none;
      middleware = nil_slice;
      connection = default_connection;
    },
    record { arrays = record { next = 1; cells = λ q. [] }; bus = new_bus },
  )

  unfoldable pub use_middleware :
      Growth
      → List (Middleware HandlerError (Running S))
      → Manager S
      → Store S L
      → Manager S × Store S L
  use_middleware g mw m st =
      let (s, h) = append g m.middleware mw st.arrays in
      (record m { middleware = s }, record st { arrays = h })

  -- Manager.On and Worker.On: one bus.
  unfoldable pub on : EventType → L → Store S L → Store S L
  on t listener st = record st { bus = Events.on t listener st.bus }

  -- Worker.Use.
  unfoldable pub use_on_worker :
      Growth
      → List (Middleware HandlerError (Running S))
      → ManagedWorker S
      → Store S L
      → ManagedWorker S × Store S L
  use_on_worker g mw w st =
      let (s, h) = append g w.pipeline mw st.arrays in
      (record w { pipeline = s }, record st { arrays = h })

  -- The worker as it runs its jobs.
  unfoldable pub as_worker : ManagedWorker S → Store S L → Worker S
  as_worker w st = record w.settings { pipeline = contents st.arrays w.pipeline }
