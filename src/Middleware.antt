-- ===== src/Middleware.antt =====
-- internal/middleware: the request body that the middleware share, and the middleware themselves.
pub mod Body
pub mod Auth
pub mod Admission
pub mod Keys
pub mod Capture
pub mod Replay
pub mod Adapter
pub mod Formats
pub mod Proxy
pub mod Retry
pub mod Chain
pub mod Honest
mod Tests
