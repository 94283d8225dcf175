-- ===== src/Runtime/Deploy.antt =====
-- Deployments: apps/control-cloud/src/runtime/deploy.ts and the helpers of
-- apps/control-cloud/src/runtime/common.ts that it uses.
pub mod State
pub mod Queue
pub mod Phases
pub mod Release
pub mod Cleanup
pub mod Reconcile
pub mod Graph
pub mod Starting
pub mod Releasing
pub mod Order
pub mod Switch
pub mod Spared
pub mod Retained
pub mod Chain
pub mod OneActive
pub mod Deadline
pub mod Provenance
mod Samples
mod Examples
