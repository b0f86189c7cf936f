-- ===== src/Tests.antt =====
-- The theorems at concrete stores, requests, files and revokers.
mod World
mod Sessions
mod Queues
mod Retries
mod Disk
mod Restarts
mod Gates
mod Approvals
mod Settings
mod Chat
mod Clients
mod Broker
mod Threads
mod Reboots
