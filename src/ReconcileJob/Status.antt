-- ===== src/ReconcileJob/Status.antt =====
-- `setCondition`, `defaultStatusToUnknown` and `defaultAllStatusesToUnknown` of the controller.
pub mod Laws
use ansible_operator.Base.{
  String, ◌<>◌, none, some, List, [], ◌∷◌, Exec, pure, with_error, wrap, wrap_text, ◌>>=◌, ◌>>◌,
  if◌then◌else◌,
}
use ansible_operator.Api.{AnsibleReconcileJob, Condition, ConditionStatus, condition_unknown}
use ansible_operator.Kube.{Platform, Session, update_reconcile_job_status, send, this, assign_this}

module _ (P : Platform) where
  unfoldable pub push_status : AnsibleReconcileJob → Exec (Session P AnsibleReconcileJob) (Unit {0})
  push_status job = do
    job' ←
        with_error (wrap_text "unable to update AnsibleReconcileJob status")
          (send (update_reconcile_job_status job) (P.update_reconcile_job_status job))
    assign_this job'

  unfoldable pub set_condition :
      String → ConditionStatus → String → String → Exec (Session P AnsibleReconcileJob) (Unit {0})
  unfolding push_status
  set_condition type status reason message = do
    job ← this
    let (conditions, changed) =
        P.set_status_condition job.conditions
          (record { type = type; status = status; reason = reason; message = message })
    let updated : AnsibleReconcileJob = record job { conditions = conditions }
    assign_this updated
    if changed then push_status updated else pure tt

  unfoldable pub default_status_to_unknown :
      String → Exec (Session P AnsibleReconcileJob) (Unit {0})
  default_status_to_unknown status = do
    job ← this
    elim (P.find_status_condition job.conditions status) [
      | some c ↦ pure tt
      | none ↦ with_error (wrap_text "failed to set condition on AnsibleReconcileJob") (
          set_condition status condition_unknown "ReconcileStarted"
            ("AnsibleReconcileJob is initializing: " <> (status <> " condition not set")))
    ]

  -- the loop of `defaultAllStatusesToUnknown`, with its body
  unfoldable pub default_one :
      String → AnsibleReconcileJob → Exec (Session P AnsibleReconcileJob) (Unit {0})
  default_one condition job =
      with_error
        (wrap (
          "failed to default condition "
          <> (condition <> (" of reconcile job " <> (job.meta.name <> " to unknown")))))
        (default_status_to_unknown condition)

  unfoldable pub default_each : List String → Exec (Session P AnsibleReconcileJob) (Unit {0})
  unfolding default_one
  default_each [] = pure tt
  default_each (condition ∷ rest) = do job ← this; default_one condition job; default_each rest

  unfoldable pub default_all_statuses_to_unknown : Exec (Session P AnsibleReconcileJob) (Unit {0})
  unfolding default_each
  default_all_statuses_to_unknown = default_each ("Ready" ∷ "Progressing" ∷ "Successful" ∷ [])
