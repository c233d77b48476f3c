-- ===== src/Storage.antt =====
-- Package storage: the leaser and checkpointer that keeps its leases in blobs of Azure Storage, and
-- its credential.
pub mod Blob
pub mod Leaser
pub mod Operations
pub mod Checkpointer
pub mod Configuration
pub mod Credential
pub mod Persisted
pub mod Acquired
pub mod Written
