-- ===== src/RateLimit.antt =====
-- internal/middleware/ratelimit.go: the sliding windows of the in-memory limiter, its admission
-- tests, and the policy limits. Times and durations are in nanoseconds; each operation gets the
-- time that `time.Now` gives it.
pub mod Window
pub mod Prune
pub mod Limiter
pub mod Middleware
pub mod Admission
pub mod Bound
mod Tests
