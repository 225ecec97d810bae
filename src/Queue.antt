-- ===== src/Queue.antt =====
-- pkg/queue: the Redis driver, jobs and their payloads, and the worker.
pub mod Keys
pub mod Redis
pub mod Scripts
pub mod Payload
pub mod Driver
pub mod Json
pub mod Job
pub mod Dispatcher
pub mod Worker
pub mod Manager
pub mod RedisDriver
pub mod Sample
mod Tests
