-- ===== src/ReconcileJob/Setup.antt =====
-- `SetupWithManager` of the reconcile job controller: the index of the playbooks, then the watches.
use ansible_operator.Base.{[], ◌∷◌, Exec, ◌>>◌}
use ansible_operator.Kube.{Platform}
use ansible_operator.Manager.{
  Manager, Registration, reconcile_job_index, ansible_reconcile_job, ansible_host, ansible_group,
  ansible_playbook, config_map, cron_job, job,
}
use ansible_operator.Manager.Calls.{Startup, index_field, complete, invoke}
use ansible_operator.ReconcileJob.Watches.{
  playbook_index, enqueue_reconcile_jobs_if_job_changed,
  enqueue_reconcile_jobs_if_referenced_playbook_changed,
  enqueue_reconcile_jobs_if_changed_host_in_namespace,
  enqueue_reconcile_jobs_if_changed_group_in_namespace,
}

unfoldable pub registration : (P : Platform) → Registration P
registration P = record {
  named = "ansiblereconcilejob";
  reconciles = ansible_reconcile_job;
  owns = config_map ∷ cron_job ∷ [];
  watches =
      (ansible_host, enqueue_reconcile_jobs_if_changed_host_in_namespace P)
      ∷ (ansible_group, enqueue_reconcile_jobs_if_changed_group_in_namespace P)
      ∷ (ansible_playbook, enqueue_reconcile_jobs_if_referenced_playbook_changed P)
      ∷ (job, λ object s. enqueue_reconcile_jobs_if_job_changed object)
      ∷ [];
  max_concurrent_reconciles = 0;
}

unfoldable pub setup_with_manager : {P : Platform} (M : Manager P) → Exec (Startup M) (Unit {0})
setup_with_manager {P} M = do
  invoke M (index_field (reconcile_job_index ".spec.playbookRef.name" playbook_index))
  invoke M (complete (registration P))
