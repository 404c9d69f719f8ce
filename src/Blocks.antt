-- ===== src/Blocks.antt =====
-- The package `blocks`: the block store of one version, its writers and its manifest.
pub mod Sparkey
pub mod Block
pub mod Manifest
pub mod Store
pub mod Record
pub mod Tests
