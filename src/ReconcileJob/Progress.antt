-- ===== src/ReconcileJob/Progress.antt =====
-- `updateStatusConditions`: the conditions `Progressing` and `Successful` tell how the newest job of
-- the cron job does.
pub mod Newest
use ansible_operator.Base.{
  ℕ, String, ◌<>◌, Option, none, some, List, [], ◌∷◌, Exec, pure, with_error, wrap, ◌>>=◌, ◌>>◌,
  ltb, if◌then◌else◌,
}
use ansible_operator.Api.{AnsibleReconcileJob, condition_true, condition_false, condition_unknown}
use ansible_operator.Kube.{Platform, Session, Job, read, this}
use ansible_operator.ReconcileJob.Status.{set_condition}

abbrev pub job_label_owner_reconcile_job : String
job_label_owner_reconcile_job = "ansible-operator.lightjack.de/owner-reconcile-job"

-- A job that has started, with its start time.
pub record Started : Type 0 where
  pub job : Job
  pub time : ℕ

-- one round of the loop: `newestJob` before and after it
unfoldable pub later_job : Option Started → Job → Option Started
later_job newest job = elim job.start_time [
  | none ↦ newest
  | some time ↦ elim newest [
    | none ↦ some (record { job = job; time = time })
    | some n ↦ if ltb n.time time then some (record { job = job; time = time }) else some n
  ]
]

unfoldable pub newest_job : Option Started → List Job → Option Started
unfolding later_job
newest_job newest [] = newest
newest_job newest (job ∷ jobs) = newest_job (later_job newest job) jobs

module _ (P : Platform) where
  unfoldable pub update_successful_status : Job → Exec (Session P AnsibleReconcileJob) (Unit {0})
  update_successful_status newest =
      if ltb 0 newest.succeeded
      then with_error (wrap "failed to set Successful status") (
          set_condition P "Successful" condition_true "JobSucceeded"
            "The last job for this reconcileJob completed successfully")
      else if ltb 0 newest.failed
      then with_error (wrap "failed to set Successful status") (
          set_condition P "Successful" condition_false "JobFailed"
            "The last job for this reconcileJob failed, check logs for details")
      else with_error (wrap "failed to set Successful status") (
          set_condition P "Successful" condition_unknown "JobStatusUnknown"
            "The last job for this reconcileJob has no failed or succeeded runs yet.")

  unfoldable pub update_progressing_status : Job → Exec (Session P AnsibleReconcileJob) (Unit {0})
  update_progressing_status newest =
      if ltb 0 newest.active
      then with_error (wrap "failed to set progressing condition on ansible reconcile job") (
          set_condition P "Progressing" condition_true "JobRunning"
            "A job belonging to this reconcileJob is currently running")
      else with_error (wrap "failed to set progressing condition on ansible reconcile job") (
          set_condition P "Progressing" condition_false "JobNotRunning"
            "There is no job currently running for this reconcileJob")

  -- `Successful` and `Progressing` where there is no job
  unfoldable pub forget_jobs : List String → Exec (Session P AnsibleReconcileJob) (Unit {0})
  forget_jobs [] = pure tt
  forget_jobs (condition ∷ rest) = do
    with_error (wrap ("failed to set status to unknown on condition " <> condition)) (
        set_condition P condition condition_unknown "NoJobsFound"
          "There are currently no jobs present matching this reconcileJob")
    forget_jobs rest

  unfoldable pub report_newest : Option Started → Exec (Session P AnsibleReconcileJob) (Unit {0})
  unfolding forget_jobs
  report_newest none = forget_jobs ("Successful" ∷ "Progressing" ∷ [])
  report_newest (some newest) = do
    with_error (wrap "failed to update progressing status") (update_progressing_status newest.job)
    with_error (wrap "failed to update successful status") (update_successful_status newest.job)

  -- after the fetch of the jobs that belong to `job`
  unfoldable pub report_jobs : AnsibleReconcileJob → Exec (Session P AnsibleReconcileJob) (Unit {0})
  report_jobs job = do
    jobs ←
        with_error (wrap "unable to fetch matching jobs")
          (read (P.list_jobs job.meta.namespace job_label_owner_reconcile_job job.meta.name))
    report_newest (newest_job none jobs)

  unfoldable pub update_status_conditions : Exec (Session P AnsibleReconcileJob) (Unit {0})
  unfolding report_jobs
  update_status_conditions = do job ← this; report_jobs job
