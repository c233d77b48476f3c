-- ===== src/Eph/Memory.antt =====
-- eph/memory.go: the leaser and checkpointer that keeps its leases in memory.
pub mod Store
pub mod Leaser
pub mod Checkpointer
pub mod Entry
pub mod Acquire
pub mod Handover
pub mod Hosts
pub mod Carries
pub mod Exclusion
