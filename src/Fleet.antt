-- ===== src/Fleet.antt =====
-- The machines of a workspace (apps/control-cloud/src/fleet.ts, and `requestNomad` of
-- apps/control-cloud/src/workspace.ts).
pub mod Commands
pub mod Enrollment
pub mod Network
pub mod Removal
