-- ===== src/Router.antt =====
-- internal/middleware/router.go: the channels, the router table with its breakers, and the
-- failover loop of the routing middleware. `time.Since` and `crypto/rand` are arguments.
pub mod Channel
pub mod Pick
pub mod Table
pub mod Scan
pub mod Selection
pub mod Failover
pub mod Single
pub mod Attempts
pub mod Probes
mod Tests
