-- ===== src/Queue/RedisDriver/Requests.antt =====
-- What one client asks of the driver over time, through the Driver interface, while the network
-- fails as it likes and other clients work on the same database.
use laravel_queue_go.Prelude.{◌≡◌, refl, false, Bool, List, [], ◌∷◌}
use laravel_queue_go.Prelude.Bytes.{Bytes, ◌=b◌}
use laravel_queue_go.Prelude.Int.{ℤ}
use laravel_queue_go.Queue.Driver.{RawJob, Driver}
use laravel_queue_go.Queue.Keys.Distinct.{keys_of}
use laravel_queue_go.Queue.Redis.{Redis}
use laravel_queue_go.Queue.RedisDriver.{Config, Oracle, State, redis_driver}
use laravel_queue_go.Queue.RedisDriver.Safety.{
  Holds, Loyal, push-Keeps, later-Keeps, pop-Keeps, delete-Keeps, release-Keeps, migrate-Keeps,
  size-Keeps,
}

-- Delete and Release are asked for a body that is taken for a job of the queue.
pub data Request : Type 0 where
  push : Bytes → Request
  later : ℤ → Bytes → Request
  pop size migrate : Request
  delete : RawJob → Request
  release : RawJob → ℤ → Request

-- The request acknowledges the payload.
unfoldable pub acknowledges : Bytes → Request → Bool
acknowledges x (delete job) = job.body =b x
acknowledges x _ = false

abbrev pub NoneAcknowledges : Bytes → List Request → Type 0
NoneAcknowledges x [] = Unit
NoneAcknowledges x (r ∷ rs) = (acknowledges x r ≡ false) × NoneAcknowledges x rs

module _ {S : Type 0} (driver : Driver S) (queue : Bytes) where
  -- The state that a request leaves, whether it fails or not.
  unfoldable pub serve : Request → S → S
  serve (push p) s = (driver.push queue p s).1
  serve (later delay p) s = (driver.later queue delay p s).1
  serve pop s = (driver.pop queue s).1
  serve size s = (driver.size queue s).1
  serve migrate s = (driver.migrate_expired_jobs queue s).1
  serve (delete job) s = (driver.delete (record job { queue = queue }) s).1
  serve (release job delay) s = (driver.release (record job { queue = queue }) delay s).1

  unfoldable pub serve_all : List Request → S → S
  unfolding serve
  serve_all [] s = s
  serve_all (r ∷ rs) s = serve_all rs (serve r s)

module _ (R : Redis) (o : Oracle R) (cfg : Config) (queue x : Bytes)
    (loyal : Loyal R (keys_of cfg.prefix queue) x o) where
  abbrev Held : R.Db → Type 0
  Held = Holds R (keys_of cfg.prefix queue) x

  serve-Held :
      (r : Request) (s : State R)
      → acknowledges x r ≡ false
      → Held s.db
      → Held (serve (redis_driver R o cfg) queue r s).db
  unfolding serve redis_driver acknowledges
  serve-Held (push p) s e h = push-Keeps R o cfg queue x loyal p s h
  serve-Held (later delay p) s e h = later-Keeps R o cfg queue x loyal delay p s h
  serve-Held pop s e h = pop-Keeps R o cfg queue x loyal s h
  serve-Held size s e h = size-Keeps R o cfg queue x loyal s h
  serve-Held migrate s e h = migrate-Keeps R o cfg queue x loyal s h
  serve-Held (delete job) s e h =
      delete-Keeps R o cfg queue x loyal (record job { queue = queue }) refl e s h
  serve-Held (release job delay) s e h =
      release-Keeps R o cfg queue x loyal (record job { queue = queue }) delay refl s h

  -- Whatever a client asks of the driver on one queue but to clear it, in whatever order, and
  -- whichever of its calls are refused or lose their reply, a payload that the queue holds, ready, delayed or reserved, is held
  -- afterwards, as long as the client deletes no job with that body and what the other clients do
  -- between its calls keeps the payload; the sorted sets stay in order.
  pub serve_all-Held :
      (rs : List Request) (s : State R)
      → NoneAcknowledges x rs
      → Holds R (keys_of cfg.prefix queue) x s.db
      → Holds R (keys_of cfg.prefix queue) x (serve_all (redis_driver R o cfg) queue rs s).db
  unfolding serve_all
  serve_all-Held [] s n h = h
  serve_all-Held (r ∷ rs) s (e, n) h =
      serve_all-Held rs (serve (redis_driver R o cfg) queue r s) n (serve-Held r s e h)
