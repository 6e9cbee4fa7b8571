-- ===== src/ReconcileJob/Reconcile/Quiet.antt =====
-- Which steps of a reconcile send nothing about cron jobs: all but one.
use ansible_operator.Base.{String, ◌≡◌, Option, none, some, List, [], ◌∷◌, arith}
use ansible_operator.Base.Maps.{Map}
use ansible_operator.Base.Post.{Keeps, keeps_rules, Keeps-if, Keeps-bind, Keeps-with_error}
use ansible_operator.Api.{ObjectMeta, AnsibleReconcileJob, ConditionStatus}
use ansible_operator.Kube.{
  Platform, Session, Job, Request, create_config_map, update_config_map, create_secret,
  update_cron_job, apply_cron_job, update_host_status, update_group_status,
  update_reconcile_job_status,
}
use ansible_operator.ReconcileJob.ConfigMaps.{
  ensure_configmap_with_data, create_with_data, replace_data,
}
use ansible_operator.ReconcileJob.RuntimeConfig.{ensure_runtime_config_map}
use ansible_operator.ReconcileJob.KnownHosts.{ensure_known_hosts_secret_exists}
use ansible_operator.ReconcileJob.Inventory.Ensure.{
  ensure_inventory_configmap, get_ansible_hosts_in_namespace, get_ansible_groups_in_namespace,
}
use ansible_operator.ReconcileJob.Status.{
  set_condition, push_status, default_each, default_one, default_all_statuses_to_unknown,
  default_status_to_unknown,
}
use ansible_operator.ReconcileJob.Progress.{
  Started, update_successful_status, update_progressing_status, forget_jobs, report_newest,
  report_jobs, update_status_conditions,
}

-- The requests that are about cron jobs.
abbrev pub cron_requests : List Request → List Request
cron_requests [] = []
cron_requests (update_cron_job x ∷ rs) = update_cron_job x ∷ cron_requests rs
cron_requests (apply_cron_job x ∷ rs) = apply_cron_job x ∷ cron_requests rs
cron_requests (create_secret x ∷ rs) = cron_requests rs
cron_requests (create_config_map x ∷ rs) = cron_requests rs
cron_requests (update_config_map x ∷ rs) = cron_requests rs
cron_requests (update_host_status x ∷ rs) = cron_requests rs
cron_requests (update_group_status x ∷ rs) = cron_requests rs
cron_requests (update_reconcile_job_status x ∷ rs) = cron_requests rs

module _ (P : Platform) (sent : List Request) where
  -- These are the requests about cron jobs so far.
  abbrev pub Sent : Session P AnsibleReconcileJob → Type 0
  Sent t = cron_requests t.requests ≡ sent

  ensure_configmap_with_data-Sent :
      (name : String) (wanted : Map String) (job : ObjectMeta)
      → Keeps Sent (ensure_configmap_with_data P name wanted job)
  unfolding ensure_configmap_with_data create_with_data replace_data
  ensure_configmap_with_data-Sent name wanted job = record { at = λ s h. ground arith }

  pub ensure_inventory_configmap-Sent :
      (job : AnsibleReconcileJob) → Keeps Sent (ensure_inventory_configmap P job)
  unfolding ensure_inventory_configmap get_ansible_hosts_in_namespace
      get_ansible_groups_in_namespace
  ensure_inventory_configmap-Sent job = search (keeps_rules, ensure_configmap_with_data-Sent)

  pub ensure_known_hosts-Sent :
      (job : AnsibleReconcileJob) → Keeps Sent (ensure_known_hosts_secret_exists P job)
  unfolding ensure_known_hosts_secret_exists
  ensure_known_hosts-Sent job = search (keeps_rules, ensure_configmap_with_data-Sent)

  pub ensure_runtime_config_map-Sent :
      (job : AnsibleReconcileJob) → Keeps Sent (ensure_runtime_config_map P job)
  unfolding ensure_runtime_config_map
  ensure_runtime_config_map-Sent job = search (keeps_rules, ensure_configmap_with_data-Sent)

  pub set_condition-Sent :
      (type : String) (status : ConditionStatus) (reason message : String)
      → Keeps Sent (set_condition P type status reason message)
  unfolding set_condition push_status
  set_condition-Sent type status reason message = record { at = λ s h. ground arith }

  update_successful_status-Sent : (job : Job) → Keeps Sent (update_successful_status P job)
  unfolding update_successful_status
  update_successful_status-Sent job = search (keeps_rules, set_condition-Sent, Keeps-if)

  update_progressing_status-Sent : (job : Job) → Keeps Sent (update_progressing_status P job)
  unfolding update_progressing_status
  update_progressing_status-Sent job = search (keeps_rules, set_condition-Sent, Keeps-if)

  report_newest-Sent : (newest : Option Started) → Keeps Sent (report_newest P newest)
  unfolding report_newest forget_jobs
  report_newest-Sent none = search (keeps_rules, set_condition-Sent)
  report_newest-Sent (some n) =
      search (keeps_rules, update_successful_status-Sent, update_progressing_status-Sent)

  pub update_status_conditions-Sent : Keeps Sent (update_status_conditions P)
  unfolding update_status_conditions report_jobs
  update_status_conditions-Sent = search (keeps_rules, report_newest-Sent)

  default_status_to_unknown-Sent : (type : String) → Keeps Sent (default_status_to_unknown P type)
  unfolding default_status_to_unknown set_condition push_status
  default_status_to_unknown-Sent type = record { at = λ s h. ground arith }

  default_each-Sent : (types : List String) → Keeps Sent (default_each P types)
  unfolding default_each default_one
  default_each-Sent [] = search (keeps_rules)
  default_each-Sent (t ∷ ts) = record {
    at = λ s.
        (Keeps-bind (default_one P t s.object) (λ _. default_each P ts)
            (Keeps-with_error _ _ (default_status_to_unknown-Sent t))
            (λ _. default_each-Sent ts)).at
          s;
  }

  pub default_all_statuses_to_unknown-Sent : Keeps Sent (default_all_statuses_to_unknown P)
  unfolding default_all_statuses_to_unknown
  default_all_statuses_to_unknown-Sent =
      default_each-Sent ("Ready" ∷ "Progressing" ∷ "Successful" ∷ [])
