-- ===== src/ReconcileJob/CronJobs.antt =====
-- The cron job that runs the playbook: `constructCronjobWithMounts` and `ensureCronjobWithMounts`.
pub mod Volumes
pub mod Construct
pub mod Ensure
pub mod Mounts
pub mod Names
pub mod Paths
pub mod Delivery
