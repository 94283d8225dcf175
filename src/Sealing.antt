-- ===== src/Sealing.antt =====
-- Sealed values and credentials: apps/control-cloud/src/crypto.ts and
-- apps/control-cloud/src/auth/crypto.ts.
pub mod Base64
pub mod Utf8
pub mod Letters
pub mod Decoded
pub mod Sealed
pub mod Characters
pub mod Restored
pub mod Opened
mod Examples
