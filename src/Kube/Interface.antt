-- ===== src/Kube/Interface.antt =====
-- What the operator calls and does not implement: `client.Client` of controller-runtime over the
-- unknown state of the API server, and the helpers of apimachinery and controller-runtime.
use ansible_operator.Base.{String, Bool, Option, List, Result}
use ansible_operator.Api.{
  ObjectKey, ObjectMeta, Condition, AnsibleHost, AnsibleGroup, AnsiblePlaybook, AnsibleReconcileJob,
}
use ansible_operator.Kube.Objects.{ConfigMap, Secret, Job, CronJob}

pub record Platform : Type 1 where
  pub State : Type 0
  -- `Get`
  pub get_host : ObjectKey → State → Result AnsibleHost
  pub get_group : ObjectKey → State → Result AnsibleGroup
  pub get_playbook : ObjectKey → State → Result AnsiblePlaybook
  pub get_reconcile_job : ObjectKey → State → Result AnsibleReconcileJob
  pub get_config_map : ObjectKey → State → Result ConfigMap
  pub get_secret : ObjectKey → State → Result Secret
  pub get_cron_job : ObjectKey → State → Result CronJob
  -- `List` in a namespace
  pub list_hosts : String → State → Result (List AnsibleHost)
  pub list_groups : String → State → Result (List AnsibleGroup)
  pub list_reconcile_jobs : String → State → Result (List AnsibleReconcileJob)
  -- `List` in a namespace with `MatchingLabels{label: value}`
  pub list_jobs : String → String → String → State → Result (List Job)
  -- `List` in a namespace with `MatchingFields{index: value}`; the index function is that which
  -- `IndexField` registered.
  pub list_groups_by :
      (AnsibleGroup → List String) → String → String → State → Result (List AnsibleGroup)
  pub list_reconcile_jobs_by :
      (AnsibleReconcileJob → List String)
      → String
      → String
      → State
      → Result (List AnsibleReconcileJob)
  -- `Create`, `Update`, `Apply` and `Status().Update`. A result is the object that the server
  -- answers with, which the client decodes into the caller's object.
  pub create_config_map : ConfigMap → State → Result ConfigMap × State
  pub update_config_map : ConfigMap → State → Result ConfigMap × State
  pub create_secret : Secret → State → Result Secret × State
  pub update_cron_job : CronJob → State → Result CronJob × State
  pub apply_cron_job : CronJob → State → Result (Unit {0}) × State
  pub update_host_status : AnsibleHost → State → Result AnsibleHost × State
  pub update_group_status : AnsibleGroup → State → Result AnsibleGroup × State
  pub update_reconcile_job_status : AnsibleReconcileJob → State → Result AnsibleReconcileJob × State
  -- `meta.FindStatusCondition` and `meta.SetStatusCondition`, which says whether it changed anything
  pub find_status_condition : List Condition → String → Option Condition
  pub set_status_condition : List Condition → Condition → List Condition × Bool
  -- `DefaultUnstructuredConverter.ToUnstructured`: the fields as they are applied
  pub to_unstructured : CronJob → Result CronJob
  -- `ctrl.SetControllerReference` for an owner of this kind, on the metadata of an object
  pub set_controller_reference : String → ObjectMeta → ObjectMeta → Result ObjectMeta
  -- `metav1.IsControlledBy(object, owner)`
  pub is_controlled_by : ObjectMeta → ObjectMeta → Bool
