-- ===== src/DeepCopy/Structs.antt =====
-- The resources as they lie in memory: a slice or a pointer is an address, or `none` for nil.
use ansible_operator.Base.{ℕ, String, Option}
use ansible_operator.Api.{AnsibleHostConnection, AnsibleHostSsh, AnsibleReconcileJobSpec}

-- The structs of apimachinery, and what they lead to in memory.
pub record Machinery : Type 1 where
  pub TypeMeta : Type 0
  pub ObjectMeta : Type 0
  pub ListMeta : Type 0
  pub Condition : Type 0
  pub Block : Type 0

pub record AnsibleGroupSpec : Type 0 where
  pub ansible_name : String
  pub hosts : Option ℕ
  pub groups : Option ℕ
  pub group_vars : String

pub record AnsibleHostSpec : Type 0 where
  pub ansible_name : String
  pub connection : AnsibleHostConnection
  pub ssh : AnsibleHostSsh
  pub privilege : Option ℕ
  pub host_vars : String

pub record AnsiblePlaybookSpec : Type 0 where
  pub inline : Option ℕ
  pub git : Option ℕ

-- the status of each resource
pub record Status : Type 0 where
  pub conditions : Option ℕ

module _ (M : Machinery) where
  pub record AnsibleGroup : Type 0 where
    pub type_meta : M.TypeMeta
    pub meta : M.ObjectMeta
    pub spec : AnsibleGroupSpec
    pub status : Status

  pub record AnsibleHost : Type 0 where
    pub type_meta : M.TypeMeta
    pub meta : M.ObjectMeta
    pub spec : AnsibleHostSpec
    pub status : Status

  pub record AnsiblePlaybook : Type 0 where
    pub type_meta : M.TypeMeta
    pub meta : M.ObjectMeta
    pub spec : AnsiblePlaybookSpec
    pub status : Status

  pub record AnsibleReconcileJob : Type 0 where
    pub type_meta : M.TypeMeta
    pub meta : M.ObjectMeta
    pub spec : AnsibleReconcileJobSpec
    pub status : Status

  -- `AnsibleGroupList` and its like: the items are the address of an array of one of the kinds.
  pub record ItemList : Type 0 where
    pub type_meta : M.TypeMeta
    pub meta : M.ListMeta
    pub items : Option ℕ
