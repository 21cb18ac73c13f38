-- ===== src/Tests.antt =====
-- The theorems at concrete rows.
pub mod Samples
mod Witnesses
pub mod Requests
mod RequestWitnesses
mod UploadWitnesses
mod CreateWitnesses
mod SchedulerWitnesses
