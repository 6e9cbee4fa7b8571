-- ===== src/ReconcileJob/Reconcile/Within.antt =====
-- How many requests a reconcile of a job sends, the error handler included.
use ansible_operator.Base.{
  ℕ, ◌+◌, ◌≤◌, String, Option, none, some, List, [], ◌∷◌, arith, Error, Exec, wrap, ◌<>◌, length,
}
use ansible_operator.Base.Maps.{Map}
use ansible_operator.Api.{
  ObjectMeta, AnsibleReconcileJob, ConditionStatus, condition_true, condition_false,
  condition_unknown,
}
use ansible_operator.Kube.{Platform, Session, Job, ReconcileResult, done}
use ansible_operator.Kube.Within.{
  Within, Within-weaken, Within-pure, Within-fail, Within-lift, Within-read, Within-with_error,
  Within-bind, Within-trying,
}
use ansible_operator.ReconcileJob.ConfigMaps.{
  ensure_configmap_with_data, create_with_data, replace_data,
}
use ansible_operator.ReconcileJob.RuntimeConfig.{ensure_runtime_config_map}
use ansible_operator.ReconcileJob.KnownHosts.{ensure_known_hosts_secret_exists}
use ansible_operator.ReconcileJob.Inventory.Ensure.{
  ensure_inventory_configmap, get_ansible_hosts_in_namespace, get_ansible_groups_in_namespace,
}
use ansible_operator.ReconcileJob.CronJobs.Ensure.{ensure_cronjob_with_mounts}
use ansible_operator.ReconcileJob.Status.{
  set_condition, push_status, default_each, default_one, default_all_statuses_to_unknown,
  default_status_to_unknown,
}
use ansible_operator.ReconcileJob.Progress.{
  Started, update_successful_status, update_progressing_status, forget_jobs, report_newest,
  report_jobs, update_status_conditions, newest_job, job_label_owner_reconcile_job,
}
use ansible_operator.ReconcileJob.Reconcile.{
  step, with_job, suspend_cronjob, report_cause, handle_reconcile_error, at_err, conclude,
  ensure_all, reconcile_job,
}

module _ (P : Platform) where
  abbrev JobSession : Type 0
  JobSession = Session P AnsibleReconcileJob

  set_condition-Within :
      (type : String) (status : ConditionStatus) (reason message : String)
      → Within 1 (set_condition P type status reason message)
  unfolding set_condition push_status
  set_condition-Within type status reason message = record { at = λ s. ground arith }

  default_one-Within :
      (type : String) (job : AnsibleReconcileJob) → Within 1 (default_one P type job)
  unfolding default_one default_status_to_unknown set_condition push_status
  default_one-Within type job = record { at = λ s. ground arith }

  default_all-Within : Within 3 (default_all_statuses_to_unknown P)
  unfolding default_all_statuses_to_unknown default_each
  default_all-Within = record {
    at = λ s.
        (Within-bind 1 2 _ _ (default_one-Within "Ready" s.object) (λ _. record {
          at = λ t.
              (Within-bind 1 1 _ _ (default_one-Within "Progressing" t.object) (λ _. record {
                at = λ u.
                    (Within-bind 1 0 _ _ (default_one-Within "Successful" u.object)
                        (λ _. Within-pure tt)).at
                      u;
              })).at
                t;
        })).at
          s;
  }

  ensure_configmap-Within :
      (name : String) (wanted : Map String) (job : ObjectMeta)
      → Within {T = AnsibleReconcileJob} 1 (ensure_configmap_with_data P name wanted job)
  unfolding ensure_configmap_with_data create_with_data replace_data
  ensure_configmap-Within name wanted job = record { at = λ s. ground arith }

  listed_hosts-Within :
      (namespace : String)
      → Within {T = AnsibleReconcileJob} 0 (get_ansible_hosts_in_namespace P namespace)
  unfolding get_ansible_hosts_in_namespace
  listed_hosts-Within namespace = record { at = λ s. ground arith }

  listed_groups-Within :
      (namespace : String)
      → Within {T = AnsibleReconcileJob} 0 (get_ansible_groups_in_namespace P namespace)
  unfolding get_ansible_groups_in_namespace
  listed_groups-Within namespace = record { at = λ s. ground arith }

  ensure_inventory-Within :
      (job : AnsibleReconcileJob)
      → Within {T = AnsibleReconcileJob} 1 (ensure_inventory_configmap P job)
  unfolding ensure_inventory_configmap
  ensure_inventory-Within job =
      Within-bind 0 1 _ _ (Within-with_error 0 _ _ (listed_hosts-Within _)) (λ hosts.
        Within-bind 0 1 _ _ (Within-with_error 0 _ _ (listed_groups-Within _)) (λ groups.
          Within-bind 0 1 _ _ (Within-with_error 0 _ _ (Within-lift _))
            (λ text. Within-with_error 1 _ _ (ensure_configmap-Within _ _ _))))

  ensure_known_hosts-Within :
      (job : AnsibleReconcileJob)
      → Within {T = AnsibleReconcileJob} 1 (ensure_known_hosts_secret_exists P job)
  unfolding ensure_known_hosts_secret_exists ensure_configmap_with_data create_with_data
      replace_data
  ensure_known_hosts-Within job = record { at = λ s. ground arith }

  ensure_runtime-Within :
      (job : AnsibleReconcileJob)
      → Within {T = AnsibleReconcileJob} 1 (ensure_runtime_config_map P job)
  unfolding ensure_runtime_config_map ensure_configmap_with_data create_with_data replace_data
  ensure_runtime-Within job = record { at = λ s. ground arith }

  ensure_cronjob-Within :
      (job : AnsibleReconcileJob)
      → Within {T = AnsibleReconcileJob} 1 (ensure_cronjob_with_mounts P job)
  unfolding ensure_cronjob_with_mounts
  ensure_cronjob-Within job = record { at = λ s. ground arith }

  update_progressing_status-Within : (job : Job) → Within 1 (update_progressing_status P job)
  unfolding update_progressing_status set_condition push_status
  update_progressing_status-Within job = record { at = λ s. ground arith }

  update_successful_status-Within : (job : Job) → Within 1 (update_successful_status P job)
  unfolding update_successful_status set_condition push_status
  update_successful_status-Within job = record { at = λ s. ground arith }

  forget_jobs-Within : (types : List String) → Within (length types) (forget_jobs P types)
  unfolding forget_jobs
  forget_jobs-Within [] = Within-pure tt
  forget_jobs-Within (t ∷ ts) = Within-weaken (1 + length ts) (length (t ∷ ts)) _ (omega arith) (
      Within-bind 1 (length ts) _ (λ _. forget_jobs P ts)
        (Within-with_error 1 (wrap ("failed to set status to unknown on condition " <> t)) _ (
          set_condition-Within t condition_unknown "NoJobsFound"
            "There are currently no jobs present matching this reconcileJob"))
        (λ _. forget_jobs-Within ts))

  report_newest-Within : (newest : Option Started) → Within 2 (report_newest P newest)
  unfolding report_newest
  report_newest-Within none = forget_jobs-Within ("Successful" ∷ "Progressing" ∷ [])
  report_newest-Within (some n) =
      Within-bind 1 1 _ _
        (Within-with_error 1 (wrap "failed to update progressing status") _
          (update_progressing_status-Within n.job))
        (λ _.
          Within-with_error 1 (wrap "failed to update successful status") _
            (update_successful_status-Within n.job))

  report_jobs-Within : (job : AnsibleReconcileJob) → Within 2 (report_jobs P job)
  unfolding report_jobs
  report_jobs-Within job =
      Within-bind 0 2 _ (λ jobs. report_newest P (newest_job none jobs))
        (Within-with_error 0 (wrap "unable to fetch matching jobs") _ (
          Within-read (P.list_jobs job.meta.namespace job_label_owner_reconcile_job job.meta.name)))
        (λ jobs. report_newest-Within _)

  update_status_conditions-Within : Within 2 (update_status_conditions P)
  unfolding update_status_conditions
  update_status_conditions-Within = record { at = λ s. (report_jobs-Within s.object).at s }

  suspend_cronjob-Within : (job : AnsibleReconcileJob) → Within 1 (suspend_cronjob P job)
  unfolding suspend_cronjob
  suspend_cronjob-Within job = record { at = λ s. ground arith }

  -- The handler suspends the cron job and sets a condition.
  at_err-Within : (cause : Error) → Within 2 (at_err P cause)
  unfolding at_err handle_reconcile_error suspend_cronjob report_cause
  at_err-Within cause =
      Within-bind 2 0 _ _
        (record {
          at = λ s.
              (Within-bind 1 1 _ _ (suspend_cronjob-Within s.object) (λ _.
                  Within-trying 1 0 _ _ _ (set_condition-Within "Ready" condition_false _ _)
                    (λ _. Within-pure tt) (λ _. Within-pure tt))).at
                s;
        })
        (λ _. Within-fail _)

  -- A step: what it sends, and what the handler or the rest does.
  step-Within :
      (k n : ℕ) (text : String) (m : Exec (JobSession) (Unit {0}))
      (rest : Exec (JobSession) ReconcileResult)
      → 2 ≤ n
      → Within k m
      → Within n rest
      → Within (k + n) (step P text m rest)
  step-Within k n text m rest le v w =
      Within-trying k n _ _ _ v (λ e. Within-weaken 2 n _ le (at_err-Within _)) (λ _. w)

  with_job-Within :
      (n : ℕ) (m : AnsibleReconcileJob → Exec (JobSession) (Unit {0}))
      → ((job : AnsibleReconcileJob) → Within n (m job))
      → Within n (with_job P m)
  with_job-Within n m w = record { at = λ s. (w s.object).at s }

  conclude-Within : Within 5 (conclude P)
  unfolding conclude
  conclude-Within = step-Within 2 3 _ _ _ (omega arith) update_status_conditions-Within (
      step-Within 1 2 _ _ _ (omega arith) (set_condition-Within "Ready" condition_true _ _)
        (Within-weaken 0 2 _ (omega arith) (Within-pure done)))

  -- However it ends, the reconcile of a job sends at most twelve write requests.
  pub reconcile_job-Within : Within 12 (reconcile_job P)
  unfolding reconcile_job ensure_all
  reconcile_job-Within = step-Within 3 9 _ _ _ (omega arith) default_all-Within (
      step-Within 1 8 _ _ _ (omega arith) (with_job-Within 1 _ ensure_inventory-Within) (
        step-Within 1 7 _ _ _ (omega arith) (with_job-Within 1 _ ensure_known_hosts-Within) (
          step-Within 1 6 _ _ _ (omega arith) (with_job-Within 1 _ ensure_runtime-Within) (
            step-Within 1 5 _ _ _ (omega arith) (with_job-Within 1 _ ensure_cronjob-Within)
              conclude-Within))))
