-- ===== src/ReconcileJob/Watches.antt =====
-- The reconcile requests that changes of other objects cause.
pub mod Laws
use ansible_operator.Base.{String, ◌<>◌, none, some, List, [], ◌∷◌, Result, ok, err, panic, wrap}
use ansible_operator.Base.Maps.{lookup}
use ansible_operator.Api.{ObjectKey, ObjectMeta, object_key, AnsibleReconcileJob}
use ansible_operator.Kube.{Platform}
use ansible_operator.ReconcileJob.Progress.{job_label_owner_reconcile_job}

-- `playbookIndexer`
unfoldable pub playbook_index : AnsibleReconcileJob → List String
playbook_index job = job.spec.playbook_ref.name ∷ []

-- A job is owned by the reconcile job that its label names.
unfoldable pub enqueue_reconcile_jobs_if_job_changed : ObjectMeta → List ObjectKey
enqueue_reconcile_jobs_if_job_changed object =
    elim (lookup job_label_owner_reconcile_job object.labels) [
      | none ↦ []
      | some owner_name ↦ record { namespace = object.namespace; name = owner_name } ∷ []
    ]

abbrev pub job_keys : List AnsibleReconcileJob → List ObjectKey
job_keys [] = []
job_keys (job ∷ jobs) = object_key job.meta ∷ job_keys jobs

abbrev keys_or_none : Result (List ObjectKey) → List ObjectKey
keys_or_none (ok keys) = keys
keys_or_none (err e) = []
keys_or_none panic = []

module _ (P : Platform) where
  unfoldable pub enqueue_reconcile_jobs_if_referenced_playbook_changed :
      ObjectMeta → P.State → List ObjectKey
  enqueue_reconcile_jobs_if_referenced_playbook_changed object s =
      elim (P.list_reconcile_jobs_by playbook_index object.name object.namespace s) [
        | ok jobs ↦ job_keys jobs
        | err e ↦ []
        | panic ↦ []
      ]

  unfoldable pub request_all_reconcile_jobs_in_namespace :
      String → P.State → Result (List ObjectKey)
  request_all_reconcile_jobs_in_namespace namespace s = elim (P.list_reconcile_jobs namespace s) [
    | ok jobs ↦ ok (job_keys jobs)
    | err e ↦ err (wrap ("failed to list AnsibleReconcileJobs in namespace " <> namespace) e)
    | panic ↦ panic
  ]

  unfoldable pub enqueue_reconcile_jobs_if_changed_host_in_namespace :
      ObjectMeta → P.State → List ObjectKey
  unfolding request_all_reconcile_jobs_in_namespace
  enqueue_reconcile_jobs_if_changed_host_in_namespace object s =
      keys_or_none (request_all_reconcile_jobs_in_namespace object.namespace s)

  unfoldable pub enqueue_reconcile_jobs_if_changed_group_in_namespace :
      ObjectMeta → P.State → List ObjectKey
  unfolding request_all_reconcile_jobs_in_namespace
  enqueue_reconcile_jobs_if_changed_group_in_namespace object s =
      keys_or_none (request_all_reconcile_jobs_in_namespace object.namespace s)
