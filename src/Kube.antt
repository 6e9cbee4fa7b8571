-- ===== src/Kube.antt =====
-- Kubernetes as the controllers see it: the objects that they build, the API server behind
-- `client.Client`, and the calls that a reconcile makes.
mod Objects
mod Interface
mod Calls
pub mod Laws
pub mod Steps
pub mod Within
pub mod Calm
pub mod Memory
pub use Objects.*
pub use Interface.*
unfoldable pub use Calls.*
