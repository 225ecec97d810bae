-- ===== src/Events.antt =====
-- pkg/events/events.go. The map of listeners is a dictionary; a listener is known by what it does,
-- a value of any type L, and Fire gives the calls that it makes, in order.
mod Laws
mod Tests
use laravel_queue_go.Prelude.{Option, none, some, List, [], ◌∷◌, ◌++◌, map}
use laravel_queue_go.Prelude.Bytes.{Bytes, codes}
use laravel_queue_go.Prelude.Dict.{Dict, lookup, put, remove}
use laravel_queue_go.Prelude.Int.{ℤ}

pub data EventType : Type 0 where
  job_processing job_processed job_failed job_exception_occurred job_released_after_error :
      EventType
  worker_stopping : EventType

-- The value of the string constant.
unfoldable pub name_of : EventType → Bytes
name_of job_processing = codes "queue.job.processing"
name_of job_processed = codes "queue.job.processed"
name_of job_failed = codes "queue.job.failed"
name_of job_exception_occurred = codes "queue.job.exception"
name_of job_released_after_error = codes "queue.job.released"
name_of worker_stopping = codes "queue.worker.stopping"

-- `E` is the type of errors.
pub record Event (E : Type 0) : Type 0 where
  pub type : EventType
  pub job_uuid : Bytes
  pub job_name : Bytes
  pub queue : Bytes
  pub attempt : ℤ
  pub duration : ℤ
  pub error : Option E
  pub connection : Bytes

or_empty : {L : Type 0} → Option (List L) → List L
or_empty none = []
or_empty (some ls) = ls

abbrev pub Bus : Type 0 → Type 0
Bus L = Dict (List L)

module _ {L : Type 0} where
  abbrev pub new_bus : Bus L
  new_bus = []

  unfoldable pub listeners : EventType → Bus L → List L
  unfolding or_empty name_of
  listeners t b = or_empty (lookup (name_of t) b)

  unfoldable pub on : EventType → L → Bus L → Bus L
  unfolding listeners
  on t l b = put (name_of t) (listeners t b ++ l ∷ []) b

  unfoldable pub clear : EventType → Bus L → Bus L
  unfolding name_of
  clear t b = remove (name_of t) b

  unfoldable pub clear_all : Bus L → Bus L
  clear_all b = new_bus

  unfoldable pub fire : {E : Type 0} → Event E → Bus L → List (L × Event E)
  unfolding listeners
  fire e b = map (λ l. (l, e)) (listeners e.type b)
