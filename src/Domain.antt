-- ===== src/Domain.antt =====
-- internal/domain: the types and rules that the other packages share.
pub mod Status
pub mod Capability
pub mod Request
