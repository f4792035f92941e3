-- ===== src/Egress.antt =====
-- internal/egress: the allowlist of outbound endpoints, and the addresses of DNS answers. Authority takes
-- the parsing and printing of addresses by net/netip as a parameter, Rules takes that of net/url.
pub mod Port
pub mod Authority
pub mod Rules
pub mod Allowed
pub mod Parsed
pub mod Source
pub mod Entries
pub mod Address
pub mod Public
mod Tests
