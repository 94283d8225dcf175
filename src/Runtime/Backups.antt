-- ===== src/Runtime/Backups.antt =====
-- Backups of databases: apps/control-cloud/src/runtime/backups.ts.
pub mod State
pub mod Requests
pub mod Passes
pub mod Retain
pub mod System
pub mod Changes
pub mod Asked
pub mod Passed
pub mod Sound
pub mod Retention
pub mod History
mod Examples
