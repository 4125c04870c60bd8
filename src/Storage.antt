-- ===== src/Storage.antt =====
-- internal/storage: the errors of a storage, the in-memory implementation with its file, and the
-- interface behind which the two implementations stand.
pub mod Errors
pub mod Filestorage
pub mod Interface
pub mod Inmemory
pub mod Database
pub mod Opening
