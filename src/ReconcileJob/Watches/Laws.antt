-- ===== src/ReconcileJob/Watches/Laws.antt =====
-- The reconcile jobs that a change of another object reaches.
use ansible_operator.Base.{◌≡◌, ◌∙◌, List, arith, ok, contains, keep, keep_ext, ◌==◌}
use mathlib.Core.List.{append-nil}
use ansible_operator.Api.{ObjectMeta, AnsibleReconcileJob}
use ansible_operator.Kube.{Platform}
use ansible_operator.Kube.Laws.{IndexLaws}
use ansible_operator.Manager.{ansible_host, ansible_group, ansible_playbook, requests}
use ansible_operator.ReconcileJob.Watches.{
  playbook_index, job_keys, enqueue_reconcile_jobs_if_referenced_playbook_changed,
  request_all_reconcile_jobs_in_namespace, enqueue_reconcile_jobs_if_changed_host_in_namespace,
  enqueue_reconcile_jobs_if_changed_group_in_namespace,
}
use ansible_operator.ReconcileJob.Setup.{registration}

module _ (P : Platform) where
  module _ (laws : IndexLaws P) (object : ObjectMeta) (s : P.State) (all : List AnsibleReconcileJob)
      (listed : P.list_reconcile_jobs object.namespace s ≡ ok all) where
    -- Under the law of indexes, where the server lists the reconcile jobs `all` of the namespace of a
    -- changed object: the reconcile job controller reconciles, for a change of a host and of a group, all
    -- of them, and for a change of a playbook, those whose playbook reference has the playbook's name;
    -- each in the order of the list, and no others.
    pub reconcile_job_requests :
        (requests P (registration P) ansible_host object s ≡ job_keys all)
        × (requests P (registration P) ansible_group object s ≡ job_keys all)
        × (requests P (registration P) ansible_playbook object s
            ≡ job_keys (keep (λ j. j.spec.playbook_ref.name == object.name) all))
    unfolding registration enqueue_reconcile_jobs_if_referenced_playbook_changed
        enqueue_reconcile_jobs_if_changed_host_in_namespace
        enqueue_reconcile_jobs_if_changed_group_in_namespace request_all_reconcile_jobs_in_namespace
        playbook_index
    reconcile_job_requests = (
      append-nil _ ∙ ground (arith, listed),
      append-nil _ ∙ ground (arith, listed),
      append-nil _
          ∙ ground (
            arith,
            laws.reconcile_jobs_by playbook_index object.name object.namespace s all listed,
            keep_ext (λ j. contains object.name (playbook_index j))
                (λ j. j.spec.playbook_ref.name == object.name) (λ j. ground arith) all,
          ),
    )
