-- ===== src/Runtime/Databases.antt =====
-- Databases: apps/control-cloud/src/runtime/database.ts. `State` has the documents, `Requests` what users
-- ask for, `Phases` and `Reconcile` what the alarm does with one database.
pub mod State
pub mod Requests
pub mod Phases
pub mod Reconcile
pub mod Kept
pub mod Followed
pub mod Ends
pub mod Removed
pub mod Attached
pub mod Asked
pub mod Served
mod Examples
