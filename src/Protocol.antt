-- ===== src/Protocol.antt =====
-- internal/protocol/registry.go: the protocols of the nodes, and the normaliser that each one has.
pub mod Media
pub mod H3
pub mod Tk2sd
pub mod Normalize
