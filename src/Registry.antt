-- ===== src/Registry.antt =====
-- The image registry of the hosted edition (apps/control-cloud/src/registry.ts).
pub mod Range
pub mod Upload
