-- ===== src/Group.antt =====
-- The AnsibleGroup controller (internal/controller/ansiblegroup_controller.go).
pub mod Status
pub mod Health
pub mod Reconcile
pub mod Watches
pub mod Setup
