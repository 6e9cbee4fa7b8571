-- ===== src/DeepCopy.antt =====
-- api/v1alpha1/zz_generated.deepcopy.go: the deep copies of the resources, in a memory with addresses.
pub mod Memory
pub mod Structs
pub mod Library
pub mod Groups
pub mod Hosts
pub mod Playbooks
pub mod Jobs
pub mod Copied
pub mod Alike
pub mod Laws
pub mod Independence
