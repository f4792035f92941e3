-- ===== src/Quota.antt =====
-- internal/quota and the middleware over it: the budgets of virtual keys and what they have spent.
pub mod Pricing
pub mod Store
pub mod Manager
pub mod Middleware
pub mod Ledger
pub mod Gate
mod Tests
