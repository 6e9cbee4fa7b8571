-- ===== src/Api/Meta.antt =====
-- The part of Kubernetes' metadata that the controllers read or write.
use ansible_operator.Base.{String, Bool, true, false, List}
use ansible_operator.Base.Maps.{Map}

-- `client.ObjectKey`, and the key of a `reconcile.Request`
pub record ObjectKey : Type 0 where
  pub namespace : String
  pub name : String

-- `metav1.OwnerReference`
pub record OwnerReference : Type 0 where
  pub kind : String
  pub name : String
  pub uid : String
  pub controller : Bool

-- `metav1.ObjectMeta`
pub record ObjectMeta : Type 0 where
  pub name : String
  pub namespace : String
  pub uid : String
  pub labels : Map String
  pub owner_references : List OwnerReference

-- `client.ObjectKeyFromObject`
abbrev pub object_key : ObjectMeta → ObjectKey
object_key m = record { namespace = m.namespace; name = m.name }

-- `metav1.ObjectMeta{Name: name, Namespace: namespace}`
abbrev pub named : String → String → ObjectMeta
named name namespace = record {
  name = name;
  namespace = namespace;
  uid = "";
  labels = List.[];
  owner_references = List.[];
}

-- `corev1.LocalObjectReference`
pub record LocalObjectReference : Type 0 where
  pub name : String

pub data ConditionStatus : Type 0 where
  condition_true condition_false condition_unknown : ConditionStatus

-- `status == metav1.ConditionTrue`
abbrev pub is_true : ConditionStatus → Bool
is_true condition_true = true
is_true condition_false = false
is_true condition_unknown = false

-- `metav1.Condition`, without the generation and the transition time, which nothing here reads.
pub record Condition : Type 0 where
  pub type : String
  pub status : ConditionStatus
  pub reason : String
  pub message : String
