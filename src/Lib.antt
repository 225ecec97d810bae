-- ===== src/Lib.antt =====
-- laravel-queue-go: a Go worker and client for the queues that Laravel keeps in Redis. This library
-- models the packages under pkg/ and the command of cmd/lqworker, and proves what makes them correct.
--
-- How the program works. A dispatcher puts a payload, JSON around a command in PHP's serialize
-- format, on a queue. A queue is four Redis keys: a list of ready payloads, sorted sets of delayed
-- and reserved ones, and a list that wakes blocked workers. Every change of more than one key is a Lua
-- script, so it is atomic. A worker pops a payload, which reserves it until a deadline, parses it,
-- and runs the handler of the job's class inside a pipeline of middleware. It deletes the job when
-- the handler succeeds, gives it back with a delay when attempts are left, and records it as failed
-- otherwise; listeners hear of each of these. Expired reservations and due delayed payloads are moved
-- to the ready list by the next pop.
--
-- Which file models what. A function has the name of the Go function in snake_case.
--   Prelude        what the rest shares: lists over native numbers, bytes, dictionaries, int64 with
--                  its wrap-around, the result of a call (a value, an error, a panic)
--   Strconv        the numbers that strconv prints and parses
--   PhpSerialize   pkg/phpserialize: Value for the dynamic types that encodeValue tells apart,
--                  Encoder, Decoder (Reads for the reads without recursion, Grammar for the rest),
--                  Names for property names, Helpers, ModelIdentifier; Fuel, Normal, RoundTrip and
--                  Panics prove
--   Events         pkg/events: the bus of listeners
--   Middleware     pkg/middleware: Pipeline is pipeline.go, Lock unique.go, with Overlap for the jobs
--                  that share a lock, as a step relation; RateLimit is rate_limit.go and throttle.go,
--                  on the counters of Counter, with Window for the jobs under one key; Slices is
--                  append on the slice of middleware, with the array behind it
--   Queue          pkg/queue: Keys, Scripts (lua.go), Driver (driver.go), RedisDriver
--                  (redis_driver.go), Payload (payload.go and the payload options of options.go),
--                  Dispatcher (dispatcher.go), Job (job.go), Manager (manager.go), Worker (worker.go;
--                  Loop is the loop with one job at a time, Concurrent the loop with several, Stop the
--                  order of Run and Stop)
--   Sql            what the next two take from an SQL database: a table, and how a call ends
--   Batch          pkg/batch: batch.go, and Repository for repository.go
--   Failed         pkg/failed: the stores of failed jobs
--   DbUtil         pkg/internal/dbutil: the names of tables
--   Config         pkg/config: the settings from the environment
--   Command        cmd/lqworker: the flags over the settings, and the worker that is started
-- Modules called Tests run the theorems at concrete inputs, on the instances in modules called Sample
-- and Memory.
--
-- State and operations. Go's strings and byte slices are lists of bytes, maps are dictionaries,
-- interface values are Value. The decoder's struct is Cursor; its methods are reads, functions of the
-- cursor to a value, an error or a panic. The driver is a state of the database as the server has it
-- and of the times of the last migrations; an oracle gives the clock, what other clients did before
-- each call, and whether the call was refused or its reply lost. A worker's World is the driver's
-- state with the events fired and the records given to the failed-job logger. The loop with one job runs through a list
-- of turns; the loop with several is a step relation between states of its goroutines. A method of the
-- repository of batches or of a provider of failed jobs is a function of a world that holds the
-- table; each of its calls can be refused or lose its reply, and other clients run between two calls.
--
-- What the model takes from elsewhere, as interfaces with their documented behaviour: the commands of
-- Redis (Queue.Redis; Middleware.Lock and Middleware.Counter for the middleware), the statements of
-- SQL on one table (Sql), the text of floats in strconv (PhpSerialize.Floats), encoding/json
-- (Queue.Json; Batch.Repository for lists of strings), time.ParseDuration, the names that uuid makes.
-- A handler and a middleware are functions of the job and the world.
--
-- Fuel. Decode recurses on fuel. It starts with twice the length of the data and one, and every
-- nested value and every entry eats at least one byte for the two levels that it takes, so the fuel
-- is enough on every input. The digits of n are printed on fuel n, and the loops over the bits of a
-- float run on the number of its bits.
--
-- A SET of SQL reads the columns as they were, or as already assigned, as the database has it.
--
-- Not modelled: the logger, the choice of a failed-job provider, contexts but for their
-- cancellation, the depth of the Go stack, running out of memory, Redis commands on a key of the
-- wrong type, negative times to live, NULL in a column of failed jobs; the timeout middleware,
-- whose handler goes on in a goroutine beside what comes after the timeout; the parsing of
-- flags, the signals and the exit codes of the command; the programs under examples/, which show
-- the use of the packages.
pub mod Prelude
pub mod Strconv
pub mod PhpSerialize
pub mod Events
pub mod Middleware
pub mod Queue
pub mod Batch
pub mod Command
pub mod Config
pub mod DbUtil
pub mod Failed
pub mod Sql
