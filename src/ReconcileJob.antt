-- ===== src/ReconcileJob.antt =====
-- The AnsibleReconcileJob controller (internal/controller/ansiblereconcilejob_controller.go).
pub mod Status
pub mod Progress
pub mod ConfigMaps
pub mod RuntimeConfig
pub mod KnownHosts
pub mod Inventory
pub mod CronJobs
pub mod Reconcile
pub mod Watches
pub mod Setup
