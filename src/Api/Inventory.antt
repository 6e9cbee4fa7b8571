-- ===== src/Api/Inventory.antt =====
-- `AnsibleHost` and `AnsibleGroup`. A pointer field is an `Option`; a uint16 is a number below 2^16.
use ansible_operator.Base.{ℕ, String, Bool, Option, List}
use ansible_operator.Api.Meta.{ObjectMeta, LocalObjectReference, Condition}

pub record AnsibleHostConnection : Type 0 where
  pub host : String
  pub port : ℕ
  pub user : String

pub record AnsibleHostSsh : Type 0 where
  pub ignore_host_key : Bool
  pub ssh_key_secret_ref : LocalObjectReference
  pub ssh_host_key_secret_ref : LocalObjectReference

pub record AnsibleHostPrivilege : Type 0 where
  pub become : Bool

pub record AnsibleHostSpec : Type 0 where
  pub ansible_name : String
  pub connection : AnsibleHostConnection
  pub ssh : AnsibleHostSsh
  pub privilege : Option AnsibleHostPrivilege
  pub host_vars : String

pub record AnsibleHost : Type 0 where
  pub meta : ObjectMeta
  pub spec : AnsibleHostSpec
  pub conditions : List Condition

pub record AnsibleGroupSpec : Type 0 where
  pub ansible_name : String
  pub hosts : List LocalObjectReference
  pub groups : List LocalObjectReference
  pub group_vars : String

pub record AnsibleGroup : Type 0 where
  pub meta : ObjectMeta
  pub spec : AnsibleGroupSpec
  pub conditions : List Condition
