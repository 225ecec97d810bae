-- ===== src/Queue/Driver.antt =====
-- pkg/queue/driver.go: the interface that jobs, workers and dispatchers use, and its data. Times are
-- nanoseconds of wall time, durations nanoseconds. Of an error only what errors.Is asks is kept.
use laravel_queue_go.Prelude.{ℕ, Option}
use laravel_queue_go.Prelude.Bytes.{Bytes}
use laravel_queue_go.Prelude.Int.{ℤ}

pub data DriverError : Type 0 where
  canceled deadline_exceeded failure : DriverError

pub record RawJob : Type 0 where
  pub body : Bytes
  pub queue : Bytes
  pub reserved_until : ℤ

-- The two results of a Go function that returns an error.
pub data Outcome (A : Type 0) : Type 0 where
  done : A → Outcome A
  failed : DriverError → Outcome A

-- An operation of a driver with the state S.
abbrev pub Op : Type 0 → Type 0 → Type 0
Op S A = S → Outcome A × S

abbrev pub follow : {S A B : Type 0} → Outcome A × S → (A → Op S B) → Outcome B × S
follow (done a, s) f = f a s
follow (failed e, s) f = (failed e, s)

infixl 5 ◌>>=◌ ◌>>◌
abbrev pub ◌>>=◌ : {S A B : Type 0} → Op S A → (A → Op S B) → Op S B
◌>>=◌ m f s = follow (m s) f

abbrev pub ◌>>◌ : {S B : Type 0} → Op S (Unit {0}) → Op S B → Op S B
m >> k = m >>= λ _. k

abbrev pub pure : {S A : Type 0} → A → Op S A
pure a s = (done a, s)

pub record Driver (S : Type 0) : Type 0 where
  pub push : Bytes → Bytes → Op S (Unit {0})
  pub later : Bytes → ℤ → Bytes → Op S (Unit {0})
  pub pop : Bytes → Op S (Option RawJob)
  pub delete : RawJob → Op S (Unit {0})
  pub release : RawJob → ℤ → Op S (Unit {0})
  pub size : Bytes → Op S ℕ
  pub clear : Bytes → Op S ℕ
  pub migrate_expired_jobs : Bytes → Op S (Unit {0})
