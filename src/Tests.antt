-- ===== src/Tests.antt =====
-- The theorems applied to concrete inputs.
pub mod Data
pub mod Queue
pub mod Stores
pub mod Storage
pub mod Others
pub mod Mail
