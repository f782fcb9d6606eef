-- ===== src/Storage.antt =====
-- crates/sidevers-storage: the object store, and large objects in chunks.
pub mod Chunks
pub mod Manifest
pub mod Objects
pub mod References
