-- ===== src/ReconcileJob/Inventory.antt =====
-- The Ansible inventory: what goes into it, its text, and the config map that holds it.
pub mod Content
pub mod Render
pub mod Ensure
pub mod Resolution
pub mod Determinism
pub mod Calm
