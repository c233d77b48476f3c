-- ===== src/Eph/Scheduler.antt =====
-- eph/scheduler.go and eph/leasedReceiver.go: which leases a host acquires, steals and serves.
pub mod Balance
pub mod Groups
pub mod Largest
pub mod Steal
pub mod Services
pub mod Expired
pub mod Receivers
pub mod Lifecycle
pub mod Loop
pub mod Running
pub mod Scan
pub mod Served
pub mod Serving
pub mod Bounds
pub mod Fairness
