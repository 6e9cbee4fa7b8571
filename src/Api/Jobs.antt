-- ===== src/Api/Jobs.antt =====
-- `AnsiblePlaybook` and `AnsibleReconcileJob`.
use ansible_operator.Base.{String, Option, List}
use ansible_operator.Api.Meta.{ObjectMeta, LocalObjectReference, Condition}

pub record AnsiblePlaybookRepo : Type 0 where
  pub url : String
  pub ref : String

pub record AnsiblePlaybookGit : Type 0 where
  pub repo : AnsiblePlaybookRepo
  pub playbook_path : String
  pub requirements_path : String

pub record AnsiblePlaybookInline : Type 0 where
  pub requirements : String
  pub playbook : String

pub record AnsiblePlaybookSpec : Type 0 where
  pub inline : Option AnsiblePlaybookInline
  pub git : Option AnsiblePlaybookGit

pub record AnsiblePlaybook : Type 0 where
  pub meta : ObjectMeta
  pub spec : AnsiblePlaybookSpec
  pub conditions : List Condition

pub record AnsibleReconcileJobSpec : Type 0 where
  pub schedule : String
  pub playbook_ref : LocalObjectReference

pub record AnsibleReconcileJob : Type 0 where
  pub meta : ObjectMeta
  pub spec : AnsibleReconcileJobSpec
  pub conditions : List Condition
