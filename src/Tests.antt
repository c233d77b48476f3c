-- ===== src/Tests.antt =====
-- The theorems at concrete inputs.
mod Memory
mod Hosts
mod Scheduler
mod Storage
mod Messages
mod Listening
mod Namespaces
mod Hubs
mod Processors
mod Batching
