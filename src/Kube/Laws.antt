-- ===== src/Kube/Laws.antt =====
-- What is relied on of the API server and of the library helpers, as named assumptions.
use ansible_operator.Base.{
  String, ◌≡◌, ◌≢◌, true, false, some, none, List, ok, succeeded, OnOk, keep, contains,
}
use ansible_operator.Api.{
  ObjectKey, ObjectMeta, object_key, Condition, ConditionStatus, AnsibleGroup, AnsibleHost,
  AnsibleReconcileJob,
}
use ansible_operator.Kube.Objects.{ConfigMap, Secret, CronJob}
use ansible_operator.Kube.Interface.{Platform}

module _ (P : Platform) where
  -- The condition of this type is there, with this status.
  abbrev pub Has : List Condition → String → ConditionStatus → Type 0
  Has conditions type status = elim (P.find_status_condition conditions type) [
    | none ↦ ⊥
    | some c ↦ c.status ≡ status
  ]

-- The documented behaviour of `meta.FindStatusCondition` and `meta.SetStatusCondition`.
pub record ConditionLaws (P : Platform) : Type 0 where
  pub find-set_self :
      (cs : List Condition) (c : Condition)
      → P.find_status_condition (P.set_status_condition cs c).0 c.type ≡ some c
  pub find-set_ne :
      (cs : List Condition) (c : Condition) (t : String)
      → t ≢ c.type
      → P.find_status_condition (P.set_status_condition cs c).0 t ≡ P.find_status_condition cs t
  -- it reports a change exactly if the condition was not there as given
  pub unchanged_iff_1 :
      (cs : List Condition) (c : Condition)
      → P.find_status_condition cs c.type ≡ some c
      → (P.set_status_condition cs c).1 ≡ false
  pub unchanged_iff_2 :
      (cs : List Condition) (c : Condition)
      → (P.set_status_condition cs c).1 ≡ false
      → (P.set_status_condition cs c).0 ≡ cs

-- A status update that the server accepts answers with the object that was sent.
pub record StatusLaws (P : Platform) : Type 0 where
  pub host_echo :
      (h : AnsibleHost) (s : P.State)
      → succeeded (P.update_host_status h s).0 ≡ true
      → (P.update_host_status h s).0 ≡ ok h
  pub group_echo :
      (g : AnsibleGroup) (s : P.State)
      → succeeded (P.update_group_status g s).0 ≡ true
      → (P.update_group_status g s).0 ≡ ok g
  pub reconcile_job_echo :
      (j : AnsibleReconcileJob) (s : P.State)
      → succeeded (P.update_reconcile_job_status j s).0 ≡ true
      → (P.update_reconcile_job_status j s).0 ≡ ok j

-- A config map is stored as it was sent, an object has the key that it is fetched by, and setting
-- a controller reference makes an object controlled and changes no name.
pub record ConfigMapLaws (P : Platform) : Type 0 where
  pub create_echo :
      (c : ConfigMap) (s : P.State)
      → succeeded (P.create_config_map c s).0 ≡ true
      → (P.create_config_map c s).0 ≡ ok c
  pub get-create :
      (c : ConfigMap) (s : P.State)
      → succeeded (P.create_config_map c s).0 ≡ true
      → P.get_config_map (object_key c.meta) (P.create_config_map c s).1 ≡ ok c
  pub get-update :
      (c : ConfigMap) (s : P.State)
      → succeeded (P.update_config_map c s).0 ≡ true
      → P.get_config_map (object_key c.meta) (P.update_config_map c s).1 ≡ ok c
  pub key-get :
      (k : ObjectKey) (s : P.State) → OnOk (λ c. object_key c.meta ≡ k) (P.get_config_map k s)
  pub controlled :
      (kind : String) (owner object : ObjectMeta)
      → OnOk
          (λ o. (P.is_controlled_by o owner ≡ true) × (object_key o ≡ object_key object))
          (P.set_controller_reference kind owner object)

-- A write changes no config map but the one that it writes.
pub record FrameLaws (P : Platform) : Type 0 where
  pub get-create_ne :
      (k : ObjectKey) (c : ConfigMap) (s : P.State)
      → k ≢ object_key c.meta
      → P.get_config_map k (P.create_config_map c s).1 ≡ P.get_config_map k s
  pub get-update_ne :
      (k : ObjectKey) (c : ConfigMap) (s : P.State)
      → k ≢ object_key c.meta
      → P.get_config_map k (P.update_config_map c s).1 ≡ P.get_config_map k s
  pub get-apply_cron_job :
      (k : ObjectKey) (c : CronJob) (s : P.State)
      → P.get_config_map k (P.apply_cron_job c s).1 ≡ P.get_config_map k s
  pub get-reconcile_job_status :
      (k : ObjectKey) (j : AnsibleReconcileJob) (s : P.State)
      → P.get_config_map k (P.update_reconcile_job_status j s).1 ≡ P.get_config_map k s
  pub get-group_status :
      (k : ObjectKey) (g : AnsibleGroup) (s : P.State)
      → P.get_config_map k (P.update_group_status g s).1 ≡ P.get_config_map k s
  pub get-host_status :
      (k : ObjectKey) (h : AnsibleHost) (s : P.State)
      → P.get_config_map k (P.update_host_status h s).1 ≡ P.get_config_map k s

-- A cron job has the key that it is fetched by, is as it was written, if the server accepts the
-- update, and the status update of a reconcile job changes none.
pub record CronJobLaws (P : Platform) : Type 0 where
  pub key-get :
      (k : ObjectKey) (s : P.State) → OnOk (λ c. object_key c.meta ≡ k) (P.get_cron_job k s)
  pub get-update :
      (c : CronJob) (s : P.State)
      → succeeded (P.update_cron_job c s).0 ≡ true
      → P.get_cron_job (object_key c.meta) (P.update_cron_job c s).1 ≡ ok c
  pub get-reconcile_job_status :
      (k : ObjectKey) (j : AnsibleReconcileJob) (s : P.State)
      → P.get_cron_job k (P.update_reconcile_job_status j s).1 ≡ P.get_cron_job k s

-- A status update changes no secret.
pub record SecretLaws (P : Platform) : Type 0 where
  pub get-host_status :
      (k : ObjectKey) (h : AnsibleHost) (s : P.State)
      → P.get_secret k (P.update_host_status h s).1 ≡ P.get_secret k s

-- A host is as it was written, if the server accepts the update of its status, and the other writes
-- of the host controller do not change it.
pub record HostLaws (P : Platform) : Type 0 where
  pub get-host_status :
      (h : AnsibleHost) (s : P.State)
      → succeeded (P.update_host_status h s).0 ≡ true
      → P.get_host (object_key h.meta) (P.update_host_status h s).1 ≡ ok h
  pub get-create_config_map :
      (k : ObjectKey) (c : ConfigMap) (s : P.State)
      → P.get_host k (P.create_config_map c s).1 ≡ P.get_host k s
  pub get-update_config_map :
      (k : ObjectKey) (c : ConfigMap) (s : P.State)
      → P.get_host k (P.update_config_map c s).1 ≡ P.get_host k s
  pub get-create_secret :
      (k : ObjectKey) (x : Secret) (s : P.State)
      → P.get_host k (P.create_secret x s).1 ≡ P.get_host k s

-- The status update of a group changes no host, and no other group. If it succeeds, the group is
-- then as it was written.
pub record MemberLaws (P : Platform) : Type 0 where
  pub get_group-group_status :
      (g : AnsibleGroup) (s : P.State)
      → succeeded (P.update_group_status g s).0 ≡ true
      → P.get_group (object_key g.meta) (P.update_group_status g s).1 ≡ ok g
  pub get_host-group_status :
      (k : ObjectKey) (g : AnsibleGroup) (s : P.State)
      → P.get_host k (P.update_group_status g s).1 ≡ P.get_host k s
  pub get_group-group_status_ne :
      (k : ObjectKey) (g : AnsibleGroup) (s : P.State)
      → k ≢ object_key g.meta
      → P.get_group k (P.update_group_status g s).1 ≡ P.get_group k s

-- A list by an index has the objects of the list without it that have the value among their index
-- values.
pub record IndexLaws (P : Platform) : Type 0 where
  pub groups_by :
      (index : AnsibleGroup → List String) (value namespace : String) (s : P.State)
      (all : List AnsibleGroup)
      → P.list_groups namespace s ≡ ok all
      → P.list_groups_by index value namespace s ≡ ok (keep (λ g. contains value (index g)) all)
  pub reconcile_jobs_by :
      (index : AnsibleReconcileJob → List String) (value namespace : String) (s : P.State)
      (all : List AnsibleReconcileJob)
      → P.list_reconcile_jobs namespace s ≡ ok all
      → P.list_reconcile_jobs_by index value namespace s
        ≡ ok (keep (λ j. contains value (index j)) all)
