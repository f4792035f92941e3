-- ===== src/VirtualKey.antt =====
-- internal/virtualkey/virtualkey.go: the claims of a virtual key, from their issue to their check, and
-- their signed text.
pub mod Claims
pub mod Issue
pub mod Token
pub mod RoundTrip
pub mod Sample
mod Tests
