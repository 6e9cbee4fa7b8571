-- ===== src/ReconcileJob/Reconcile.antt =====
-- `Reconcile` of the controller and `handleReconcileError`. A step that fails assigns its error to the
-- result `err` and jumps to the label, so that the handler has a cause.
pub mod Failure
pub mod Calm
pub mod Within
pub mod Keeping
pub mod Provided
pub mod Provision
pub mod Quiet
pub mod Applied
pub mod Outcome
use ansible_operator.Base.{
  String, ◌<>◌, true, Option, none, some, Error, not_found, other, Result, ok, err, panic, wrap,
  errorf, Exec, pure, fail, with_error, trying, ◌>>=◌, ◌>>◌,
}
use ansible_operator.Api.{
  ObjectKey, AnsibleReconcileJob, condition_true, condition_false, object_key,
}
use ansible_operator.Kube.{
  Platform, Session, CronJob, ReconcileResult, done, update_cron_job, read, send, this,
}
use ansible_operator.ReconcileJob.Status.{set_condition, default_all_statuses_to_unknown}
use ansible_operator.ReconcileJob.Progress.{update_status_conditions}
use ansible_operator.ReconcileJob.RuntimeConfig.{ensure_runtime_config_map}
use ansible_operator.ReconcileJob.KnownHosts.{ensure_known_hosts_secret_exists}
use ansible_operator.ReconcileJob.Inventory.Ensure.{ensure_inventory_configmap}
use ansible_operator.ReconcileJob.CronJobs.Ensure.{ensure_cronjob_with_mounts}

module _ (P : Platform) where
  -- The cron job, if it can be fetched, is updated to be suspended; errors are only logged.
  unfoldable pub suspend_cronjob :
      AnsibleReconcileJob → Exec (Session P AnsibleReconcileJob) (Unit {0})
  suspend_cronjob job =
      trying (read (P.get_cron_job (object_key job.meta))) (λ _. pure tt)
        (λ cronjob.
          let suspended : CronJob = record cronjob { suspend = some true } in
          trying (send (update_cron_job suspended) (P.update_cron_job suspended)) (λ _. pure tt)
            (λ _. pure tt))

  -- The condition is set on the copy of the job that the handler was given; errors are only logged.
  unfoldable pub report_cause : Error → Exec (Session P AnsibleReconcileJob) (Unit {0})
  report_cause cause =
      trying (set_condition P "Ready" condition_false "ReconcileError" cause.message) (λ _. pure tt)
        (λ _. pure tt)

  unfoldable pub handle_reconcile_error : Error → Exec (Session P AnsibleReconcileJob) (Unit {0})
  unfolding suspend_cronjob report_cause
  handle_reconcile_error cause = do job ← this; suspend_cronjob job; report_cause cause

  -- the label `err`
  unfoldable pub at_err : Error → Exec (Session P AnsibleReconcileJob) ReconcileResult
  at_err cause = do
    handle_reconcile_error cause
    fail (wrap "error encountered during reconcile" cause)

  -- `err = m; if err != nil { err = fmt.Errorf("text: %w", err); goto err }`
  abbrev pub step :
      String
      → Exec (Session P AnsibleReconcileJob) (Unit {0})
      → Exec (Session P AnsibleReconcileJob) ReconcileResult
      → Exec (Session P AnsibleReconcileJob) ReconcileResult
  step text m rest = trying m (λ e. at_err (wrap text e)) (λ _. rest)

  -- from the call of `updateStatusConditions` on
  unfoldable pub conclude : Exec (Session P AnsibleReconcileJob) ReconcileResult
  conclude = step "failed to update status conditions" (update_status_conditions P) (
      step "failed to update condition to ready on reconcileJob"
        (set_condition P "Ready" condition_true "ReconcileSuccess"
          "Resource reconciled successfully")
        (pure done))

  -- The four `ensure` functions are given a copy of the job as it is at the call.
  abbrev pub with_job :
      (AnsibleReconcileJob → Exec (Session P AnsibleReconcileJob) (Unit {0}))
      → Exec (Session P AnsibleReconcileJob) (Unit {0})
  with_job f = do job ← this; f job

  unfoldable pub ensure_all : Exec (Session P AnsibleReconcileJob) ReconcileResult
  ensure_all =
      step "failed to ensure inventory configmap" (with_job (ensure_inventory_configmap P)) (
        step "failed to ensure known hosts configmap"
          (with_job (ensure_known_hosts_secret_exists P))
          (step "failed to ensure runtime configmap" (with_job (ensure_runtime_config_map P)) (
            step "failed to ensure cronjob exists" (with_job (ensure_cronjob_with_mounts P))
              conclude)))

  -- `Reconcile` on a job that was fetched
  unfoldable pub reconcile_job : Exec (Session P AnsibleReconcileJob) ReconcileResult
  reconcile_job =
      step "unable to set statuses to initial values" (default_all_statuses_to_unknown P) ensure_all

  unfoldable pub reconcile : ObjectKey → Exec (Session P AnsibleReconcileJob) ReconcileResult
  reconcile key s = elim (P.get_reconcile_job key s.server) [
    | ok job ↦ reconcile_job (record s { object = job })
    | err e ↦ elim e.reason [
      | not_found ↦ (ok done, s)
      | other ↦ (err (wrap "failed to get AnsibleReconcileJob" e), s)
    ]
    | panic ↦ (panic, s)
  ]
