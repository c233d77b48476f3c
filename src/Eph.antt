-- ===== src/Eph.antt =====
-- Package eph: the Event Processor Host.
pub mod Host
pub mod Lease
pub mod Memory
pub mod Scheduler
