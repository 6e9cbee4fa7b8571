-- ===== src/Tests.antt =====
-- Runs of the controllers against the server in memory, and the theorems at concrete data.
mod Data
mod Groups
mod Hosts
mod Jobs
mod Startup
mod Watches
mod Calm
mod Cascade
mod Provision
mod Convergence
mod Keys
mod Settled
mod Delivery
mod Copies
