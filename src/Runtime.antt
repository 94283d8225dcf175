-- ===== src/Runtime.antt =====
-- Building and running applications: apps/control-cloud/src/runtime.ts, the files of
-- apps/control-cloud/src/runtime, and apps/control-cloud/src/readiness.ts.
pub mod Placement
pub mod Deploy
pub mod Scheduler
pub mod Backups
pub mod Databases
pub mod Readiness
pub mod Environment
pub mod Projects
