-- ===== src/Middleware.antt =====
-- pkg/middleware: the pipeline, and the middleware that it runs.
pub mod Pipeline
pub mod Lock
pub mod Counter
pub mod RateLimit
pub mod Slices
mod Tests
