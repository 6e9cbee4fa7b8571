-- ===== src/ReconcileJob/Reconcile/Calm.antt =====
-- A reconcile of a job does not panic if every host of its namespace says how to gain privileges.
use ansible_operator.Base.{
  String, ◌<>◌, ◌≡◌, Option, ok, arith, Error, none, some, List, [], ◌∷◌, ◌++◌, if◌then◌else◌,
  Result-cases, is_ok, is_err, is_panic, Option-cases, ◌==◌, inl, inr, All,
}
use ansible_operator.Base.Calm.{NoPanic, Calm, calm_rules}
use ansible_operator.Api.{
  AnsibleHost, AnsibleReconcileJob, AnsiblePlaybook, ConditionStatus, condition_unknown, ObjectKey,
}
use ansible_operator.Kube.{Platform, Session, Secret}
use ansible_operator.Kube.Calm.{NeverPanics, call_rules}
use ansible_operator.ReconcileJob.Status.{
  push_status, set_condition, default_status_to_unknown, default_one, default_each,
  default_all_statuses_to_unknown,
}
use ansible_operator.ReconcileJob.Progress.{
  Started, update_successful_status, update_progressing_status, forget_jobs, report_newest,
  report_jobs, update_status_conditions,
}
use ansible_operator.ReconcileJob.Inventory.Content.{hosts_by_name, groups_by_name}
use ansible_operator.ReconcileJob.Inventory.Ensure.{
  inventory_config_map_name_suffix, inventory_config_map_key, construct_inventory_content,
  ensure_inventory_configmap, get_ansible_hosts_in_namespace, get_ansible_groups_in_namespace,
}
use ansible_operator.ReconcileJob.RuntimeConfig.{runtime_config, ensure_runtime_config_map}
use ansible_operator.ReconcileJob.KnownHosts.{
  known_hosts_of_secret, get_known_hosts_lines_for_host, collect_known_hosts,
  get_known_hosts_for_reconcile_job, ensure_known_hosts_secret_exists,
}
use ansible_operator.ReconcileJob.Reconcile.{
  suspend_cronjob, report_cause, handle_reconcile_error, at_err, conclude, ensure_all,
  reconcile_job,
}
use ansible_operator.ReconcileJob.CronJobs.Ensure.{ensure_cronjob_with_mounts}
use ansible_operator.ReconcileJob.Inventory.Calm.{Privileged, construct_inventory_content-NoPanic}
use ansible_operator.ReconcileJob.ConfigMaps.Calm.{ensure_configmap_with_data-Calm}

module _ (P : Platform) (never : NeverPanics P)
    (privileged : (namespace : String) (s : P.State) (hosts : List AnsibleHost)
      → P.list_hosts namespace s ≡ ok hosts
      → All Privileged hosts) where
  push_status-Calm : (j : AnsibleReconcileJob) → Calm (push_status P j)
  unfolding push_status
  push_status-Calm j = search (calm_rules, call_rules, never.update_reconcile_job_status)

  set_condition-Calm :
      (type : String) (status : ConditionStatus) (reason message : String)
      → Calm (set_condition P type status reason message)
  unfolding set_condition
  set_condition-Calm type status reason message = search (calm_rules, call_rules, push_status-Calm)

  default_status_to_unknown-Calm : (type : String) → Calm (default_status_to_unknown P type)
  unfolding default_status_to_unknown
  default_status_to_unknown-Calm type = record {
    at = λ s. elim (Option-cases (P.find_status_condition s.object.conditions type)) [
      | inl missing ↦ ground (
        arith,
        (set_condition-Calm type condition_unknown "ReconcileStarted"
              ("AnsibleReconcileJob is initializing: " <> (type <> " condition not set"))).at
            s,
      )
      | inr (c, found) ↦ ground (arith, found)
    ];
  }

  default_all-Calm : Calm (default_all_statuses_to_unknown P)
  unfolding default_all_statuses_to_unknown default_each default_one
  default_all-Calm = search (calm_rules, call_rules, default_status_to_unknown-Calm) depth 12

  report_newest-Calm : (newest : Option Started) → Calm (report_newest P newest)
  unfolding report_newest forget_jobs update_successful_status update_progressing_status
  report_newest-Calm none = search (calm_rules, set_condition-Calm) depth 12
  report_newest-Calm (some n) = search (calm_rules, set_condition-Calm) depth 12

  update_status_conditions-Calm : Calm (update_status_conditions P)
  unfolding update_status_conditions report_jobs
  update_status_conditions-Calm =
      search (calm_rules, call_rules, report_newest-Calm, never.list_jobs) depth 12

  known_hosts_of_secret-NoPanic :
      (host : AnsibleHost) (secret : Secret) → NoPanic (known_hosts_of_secret P host secret)
  unfolding known_hosts_of_secret
  known_hosts_of_secret-NoPanic host secret = ground arith

  get_known_hosts_lines_for_host-NoPanic :
      (host : AnsibleHost) (s : P.State) → NoPanic (get_known_hosts_lines_for_host P host s)
  unfolding get_known_hosts_lines_for_host
  get_known_hosts_lines_for_host-NoPanic host s =
      let key : ObjectKey = record {
        namespace = host.meta.namespace;
        name = host.spec.ssh.ssh_host_key_secret_ref.name;
      } in
      elim (Result-cases (P.get_secret key s)) [
        | is_ok secret got ↦ ground (arith, got, known_hosts_of_secret-NoPanic host secret)
        | is_err e got ↦ ground (arith, got)
        | is_panic got ↦ ground (arith, got, never.get_secret key s)
      ]

  collect_known_hosts-NoPanic :
      (hosts : List AnsibleHost) (texts : List String) (s : P.State)
      → NoPanic (collect_known_hosts P hosts texts s)
  unfolding collect_known_hosts
  collect_known_hosts-NoPanic [] texts s = tt
  collect_known_hosts-NoPanic (host ∷ hosts) texts s =
      elim (Result-cases (get_known_hosts_lines_for_host P host s)) [
        | is_ok text got ↦ ground (
          arith,
          got,
          collect_known_hosts-NoPanic hosts (if text == "" then texts else texts ++ (text ∷ [])) s,
        )
        | is_err e got ↦ ground (arith, got)
        | is_panic got ↦ ground (arith, got, get_known_hosts_lines_for_host-NoPanic host s)
      ]

  get_known_hosts-NoPanic :
      (hosts : List AnsibleHost) (s : P.State)
      → NoPanic (get_known_hosts_for_reconcile_job P hosts s)
  unfolding get_known_hosts_for_reconcile_job
  get_known_hosts-NoPanic hosts s = collect_known_hosts-NoPanic hosts [] s

  runtime_config-NoPanic : (p : AnsiblePlaybook) → NoPanic (runtime_config p)
  unfolding runtime_config
  runtime_config-NoPanic p = ground arith

  module _ {T : Type 0} (job : AnsibleReconcileJob) where
    -- from the groups on, where the server lists these hosts
    with_hosts-NoPanic :
        (hosts : List AnsibleHost) (s : Session P T)
        → P.list_hosts job.meta.namespace s.server ≡ ok hosts
        → NoPanic (ensure_inventory_configmap P job s).0
    unfolding ensure_inventory_configmap get_ansible_hosts_in_namespace
        get_ansible_groups_in_namespace
    with_hosts-NoPanic hosts s got =
        elim (Result-cases (P.list_groups job.meta.namespace s.server)) [
          | is_ok groups listed ↦
              let content =
                construct_inventory_content (hosts_by_name hosts []) (groups_by_name groups []) in
              let calm =
                construct_inventory_content-NoPanic hosts (groups_by_name groups [])
                  (privileged job.meta.namespace s.server hosts got) in
              elim (Result-cases content) [
                | is_ok text made ↦ ground (
                  arith,
                  got,
                  listed,
                  made,
                  (ensure_configmap_with_data-Calm P never
                        (job.meta.name <> inventory_config_map_name_suffix)
                        ((inventory_config_map_key, text) ∷ []) job.meta).at
                      s,
                )
                | is_err e made ↦ ground (arith, got, listed, made)
                | is_panic made ↦ ground (arith, made, calm)
              ]
          | is_err e listed ↦ ground (arith, got, listed)
          | is_panic listed ↦ ground (arith, listed, never.list_groups job.meta.namespace s.server)
        ]

    ensure_inventory_configmap-Calm : Calm (ensure_inventory_configmap P {T = T} job)
    unfolding ensure_inventory_configmap get_ansible_hosts_in_namespace
        get_ansible_groups_in_namespace
    ensure_inventory_configmap-Calm = record {
      at = λ s. elim (Result-cases (P.list_hosts job.meta.namespace s.server)) [
        | is_ok hosts got ↦ with_hosts-NoPanic hosts s got
        | is_err e got ↦ ground (arith, got)
        | is_panic got ↦ ground (arith, got, never.list_hosts job.meta.namespace s.server)
      ];
    }

    ensure_known_hosts-Calm : Calm (ensure_known_hosts_secret_exists P {T = T} job)
    unfolding ensure_known_hosts_secret_exists
    ensure_known_hosts-Calm =
        search
          (
            calm_rules, call_rules, never.list_hosts, get_known_hosts-NoPanic,
            ensure_configmap_with_data-Calm,
          )
          depth 12

    ensure_cronjob_with_mounts-Calm : Calm (ensure_cronjob_with_mounts P {T = T} job)
    unfolding ensure_cronjob_with_mounts
    ensure_cronjob_with_mounts-Calm =
        search
          (
            calm_rules, call_rules, never.list_hosts, never.list_groups,
            never.set_controller_reference, never.to_unstructured, never.apply_cron_job,
          )
          depth 16

    ensure_runtime_config_map-Calm : Calm (ensure_runtime_config_map P {T = T} job)
    unfolding ensure_runtime_config_map
    ensure_runtime_config_map-Calm =
        search
          (
            calm_rules, call_rules, never.get_playbook, runtime_config-NoPanic,
            ensure_configmap_with_data-Calm,
          )
          depth 12

  suspend_cronjob-Calm : (job : AnsibleReconcileJob) → Calm (suspend_cronjob P job)
  unfolding suspend_cronjob
  suspend_cronjob-Calm job =
      search (calm_rules, call_rules, never.get_cron_job, never.update_cron_job) depth 12

  at_err-Calm : (cause : Error) → Calm (at_err P cause)
  unfolding at_err handle_reconcile_error report_cause
  at_err-Calm cause =
      search (calm_rules, call_rules, suspend_cronjob-Calm, set_condition-Calm) depth 12

  conclude-Calm : Calm (conclude P)
  unfolding conclude
  conclude-Calm =
      search (calm_rules, at_err-Calm, update_status_conditions-Calm, set_condition-Calm) depth 12

  ensure_all-Calm : Calm (ensure_all P)
  unfolding ensure_all
  ensure_all-Calm =
      search
        (
          calm_rules, call_rules, at_err-Calm, ensure_inventory_configmap-Calm,
          ensure_known_hosts-Calm, ensure_runtime_config_map-Calm, ensure_cronjob_with_mounts-Calm,
          conclude-Calm,
        )
        depth 20 fits 4000

  -- If no call of the API server panics, and if every host that it lists has the optional
  -- `privilege`, a reconcile of a job does not panic: from every state it returns a result or an error.
  pub reconcile_job-Calm : Calm (reconcile_job P)
  unfolding reconcile_job
  reconcile_job-Calm = search (calm_rules, at_err-Calm, default_all-Calm, ensure_all-Calm)
