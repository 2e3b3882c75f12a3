-- ===== src/Middleware.antt =====
-- internal/middleware: what stands around the handlers. A handler is an action for each request; one
-- that panics ends in an error. The logging middleware only writes to the log, and has no definition.
pub mod Auth
pub mod Idempotency
pub mod Stack
