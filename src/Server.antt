-- ===== src/Server.antt =====
-- internal/server/pipeline.go and internal/requestid: the request context, the middleware
-- pipeline with its panics, the infrastructure middleware; internal/server/server.go: the handlers that
-- run while the server drains.
pub mod Context
pub mod Sample
pub mod RequestId
pub mod Pipeline
pub mod Answers
pub mod Lifecycle
mod Tests
