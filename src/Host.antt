-- ===== src/Host.antt =====
-- The AnsibleHost controller (internal/controller/ansiblehost_controller.go).
pub mod Status
pub mod Secrets
pub mod Reconcile
pub mod Setup
