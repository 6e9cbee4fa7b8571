-- ===== src/Kube/Memory.antt =====
-- An API server in memory, which meets the assumptions of Kube/Laws: objects in lists, found by
-- namespace and name.
pub mod Conditions
pub mod Lawful
use ansible_operator.Base.{
  String, Bool, true, false, ◌&&◌, Option, none, some, List, [], ◌∷◌, not_found, other, Result, ok,
  err, panic, errorf, Error, if◌then◌else◌, ◌==◌, keep, contains,
}
use ansible_operator.Base.Maps.{lookup}
use ansible_operator.Api.{
  ObjectKey, ObjectMeta, OwnerReference, object_key, AnsibleHost, AnsibleGroup, AnsiblePlaybook,
  AnsibleReconcileJob,
}
use ansible_operator.Kube.Objects.{ConfigMap, Secret, Job, CronJob}
use ansible_operator.Kube.Interface.{Platform}
use Conditions.{find_condition, set_condition}

pub record Memory : Type 0 where
  pub hosts : List AnsibleHost
  pub groups : List AnsibleGroup
  pub playbooks : List AnsiblePlaybook
  pub reconcile_jobs : List AnsibleReconcileJob
  pub config_maps : List ConfigMap
  pub secrets : List Secret
  pub cron_jobs : List CronJob
  pub jobs : List Job

abbrev missing : Error
missing = record { reason = not_found; message = "not found" }

abbrev has_key : ObjectKey → ObjectMeta → Bool
has_key k m = m.name == k.name && m.namespace == k.namespace

module _ {A : Type 0} (meta : A → ObjectMeta) where
  unfoldable pub fetch : ObjectKey → List A → Result A
  fetch k [] = err missing
  fetch k (x ∷ xs) = if has_key k (meta x) then ok x else fetch k xs

  unfoldable pub store : A → List A → List A
  store a [] = a ∷ []
  store a (x ∷ xs) = if has_key (object_key (meta a)) (meta x) then a ∷ xs else x ∷ store a xs

  unfoldable pub within : String → List A → List A
  within namespace [] = []
  within namespace (x ∷ xs) =
      let rest = within namespace xs in if (meta x).namespace == namespace then x ∷ rest else rest

abbrev pub controlled : List OwnerReference → String → Bool
controlled [] uid = false
controlled (ref ∷ refs) uid = if ref.controller then ref.uid == uid else controlled refs uid

abbrev pub own : String → ObjectMeta → ObjectMeta → ObjectMeta
own kind owner m = record m {
  owner_references =
      record { kind = kind; name = owner.name; uid = owner.uid; controller = true }
      ∷ m.owner_references;
}

-- `Create` of a config map, which fails if there is one
unfoldable pub create : ConfigMap → Memory → Result ConfigMap × Memory
create c s = elim (fetch (λ x. x.meta) (object_key c.meta) s.config_maps) [
  | ok old ↦ (err (errorf "already exists"), s)
  | err e ↦ (ok c, record s { config_maps = store (λ x. x.meta) c s.config_maps })
  | panic ↦ (panic, s)
]

abbrev labelled : String → String → List Job → List Job
labelled label value =
    keep (λ j. elim (lookup label j.meta.labels) [ none ↦ false | some v ↦ v == value ])

abbrev pub memory : Platform
memory = record {
  State = Memory;
  get_host = λ k s. fetch (λ x. x.meta) k s.hosts;
  get_group = λ k s. fetch (λ x. x.meta) k s.groups;
  get_playbook = λ k s. fetch (λ x. x.meta) k s.playbooks;
  get_reconcile_job = λ k s. fetch (λ x. x.meta) k s.reconcile_jobs;
  get_config_map = λ k s. fetch (λ x. x.meta) k s.config_maps;
  get_secret = λ k s. fetch (λ x. x.meta) k s.secrets;
  get_cron_job = λ k s. fetch (λ x. x.meta) k s.cron_jobs;
  list_hosts = λ n s. ok (within (λ x. x.meta) n s.hosts);
  list_groups = λ n s. ok (within (λ x. x.meta) n s.groups);
  list_reconcile_jobs = λ n s. ok (within (λ x. x.meta) n s.reconcile_jobs);
  list_jobs = λ n label value s. ok (labelled label value (within (λ x. x.meta) n s.jobs));
  list_groups_by = λ index value n s.
      ok (keep (λ x. contains value (index x)) (within (λ x. x.meta) n s.groups));
  list_reconcile_jobs_by = λ index value n s.
      ok (keep (λ x. contains value (index x)) (within (λ x. x.meta) n s.reconcile_jobs));
  create_config_map = create;
  update_config_map = λ c s. (ok c, record s { config_maps = store (λ x. x.meta) c s.config_maps });
  create_secret = λ c s. (ok c, record s { secrets = store (λ x. x.meta) c s.secrets });
  update_cron_job = λ c s. (ok c, record s { cron_jobs = store (λ x. x.meta) c s.cron_jobs });
  apply_cron_job = λ c s. (ok tt, record s { cron_jobs = store (λ x. x.meta) c s.cron_jobs });
  update_host_status = λ h s. (ok h, record s { hosts = store (λ x. x.meta) h s.hosts });
  update_group_status = λ g s. (ok g, record s { groups = store (λ x. x.meta) g s.groups });
  update_reconcile_job_status =
      λ j s. (ok j, record s { reconcile_jobs = store (λ x. x.meta) j s.reconcile_jobs });
  find_status_condition = find_condition;
  set_status_condition = set_condition;
  to_unstructured = λ c. ok c;
  set_controller_reference = λ kind owner m. ok (own kind owner m);
  is_controlled_by = λ m owner. controlled m.owner_references owner.uid;
}
