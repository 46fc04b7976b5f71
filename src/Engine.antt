-- ===== src/Engine.antt =====
-- The engine, internal/engine: the router, the intent classifier and the worker pool.
pub mod World
pub mod Intent
pub mod Router
pub mod Reply
pub mod Worker
pub mod Tests
