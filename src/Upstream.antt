-- ===== src/Upstream.antt =====
-- internal/upstream: the failure classes, the concurrency gate, one egress's retrying call, and the
-- loop over egresses.
pub mod Failure
pub mod Limiter
pub mod Recorder
pub mod ErrorBody
pub mod Client
pub mod Executor
pub mod Redirects
pub mod Lines
pub mod Socks
