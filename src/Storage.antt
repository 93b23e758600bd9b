-- ===== src/Storage.antt =====
-- The object store of server/src/infrastructure/object_store.rs: keys, signed URLs, and the backend on a
-- local disk.
pub mod Keys
pub mod Signing
pub mod Local
pub mod Access
pub mod Multipart
