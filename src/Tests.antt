-- ===== src/Tests.antt =====
-- Runs of the model on concrete inputs, and the theorems applied at them.
mod Fixtures
mod Queues
mod Processing
mod Senders
mod Scheduling
mod Fastpath
mod Settlement
mod International
mod Limiting
mod Bootstrapping
mod Stores
mod Topology
mod Wired
mod Consuming
mod Tokens
mod Tripping
mod Dedication
mod Configuring
