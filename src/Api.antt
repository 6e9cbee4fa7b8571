-- ===== src/Api.antt =====
-- The objects of the API group `ansible-operator.lightjack.de/v1alpha1` (api/v1alpha1) and what
-- they hold of the Kubernetes types: metadata, references and status conditions.
mod Meta
mod Inventory
mod Jobs
pub use Meta.*
pub use Inventory.*
pub use Jobs.*
