-- ===== src/ReconcileJob/Reconcile/Keeping.antt =====
-- What the steps of a reconcile leave alone, where they do not fail: the job in hand, and the config maps that they do not
-- write.
use ansible_operator.Base.{
  String, ◌≡◌, ◌≢◌, ◌∙◌, Option, none, some, Error, arith, Result, ok, OnOk, Result-cases, is_ok,
  is_err, is_panic, Exec,
}
use mathlib.Core.Path.{subst}
use ansible_operator.Base.Maps.{Map}
use ansible_operator.Base.Post.{
  Keeps, keeps_rules, Keeps-if, Post, Post-bind, Post-state, Post-fail, Post-trying, Post-pure,
}
use ansible_operator.Api.{
  ObjectKey, ObjectMeta, object_key, named, AnsibleReconcileJob, Condition, ConditionStatus,
  condition_true,
}
use ansible_operator.Kube.{
  Platform, Session, ConfigMap, CronJob, Job, ReconcileResult, apply_cron_job, send, done,
}
use ansible_operator.Kube.Laws.{ConfigMapLaws, FrameLaws}
use ansible_operator.ReconcileJob.Reconcile.{handle_reconcile_error, at_err, step, conclude}
use ansible_operator.ReconcileJob.ConfigMaps.{
  ensure_configmap_with_data, create_with_data, replace_data,
}
use ansible_operator.ReconcileJob.ConfigMaps.Laws.{map_key}
use ansible_operator.ReconcileJob.RuntimeConfig.{ensure_runtime_config_map}
use ansible_operator.ReconcileJob.KnownHosts.{ensure_known_hosts_secret_exists}
use ansible_operator.ReconcileJob.Inventory.Ensure.{
  ensure_inventory_configmap, get_ansible_hosts_in_namespace, get_ansible_groups_in_namespace,
}
use ansible_operator.ReconcileJob.CronJobs.Ensure.{ensure_cronjob_with_mounts}
use ansible_operator.ReconcileJob.Status.{set_condition, push_status}
use ansible_operator.ReconcileJob.Status.Laws.{with_condition}
use ansible_operator.ReconcileJob.Progress.{
  Started, update_successful_status, update_progressing_status, forget_jobs, report_newest,
  report_jobs, update_status_conditions,
}

module _ (P : Platform) where
  abbrev JobSession : Type 0
  JobSession = Session P AnsibleReconcileJob

  -- A reconcile that jumps to the label does not return normally.
  pub at_err_lem :
      (Q : ReconcileResult → JobSession → Type 0) (cause : Error) (s : JobSession)
      → Post Q (at_err P cause) s
  unfolding at_err
  at_err_lem Q cause s =
      Post-bind (handle_reconcile_error P cause) _ s
        (Post-state (λ t. Post Q _ t) _ s (Post-fail _ _))

  -- What the steps keep holds where a reconcile that returns normally ends.
  module _ (I : JobSession → Type 0) where
    pub pass :
        (text : String) (m : Exec (JobSession) (Unit {0}))
        (rest : Exec (JobSession) ReconcileResult) (s : JobSession)
        → Keeps I m
        → I s
        → ((t : JobSession) → I t → Post (λ _ u. I u) rest t)
        → Post (λ _ t. I t) (step P text m rest) s
    pass text m rest s keeps h k =
        Post-trying m _ _ s (Post-state (λ t. Post (λ _ u. I u) rest t) m s (k _ (keeps.at s h)))
          (λ e. at_err_lem _ _ _)

    pub conclude_lem :
        (s : JobSession)
        → Keeps I (update_status_conditions P)
        → Keeps I (
            set_condition P "Ready" condition_true "ReconcileSuccess"
              "Resource reconciled successfully")
        → I s
        → Post (λ _ t. I t) (conclude P) s
    unfolding conclude
    conclude_lem s conditions ready h = pass _ (update_status_conditions P) _ s conditions h λ t i.
        pass _ (set_condition P "Ready" condition_true _ _) _ t ready i λ u j. Post-pure done u j

  module _ (owner : AnsibleReconcileJob) where
    abbrev pub Same : JobSession → Type 0
    Same t = t.object ≡ owner

    ensure_configmap_with_data-Same :
        (name : String) (wanted : Map String) (job : ObjectMeta)
        → Keeps Same (ensure_configmap_with_data P name wanted job)
    unfolding ensure_configmap_with_data create_with_data replace_data
    ensure_configmap_with_data-Same name wanted job = record { at = λ s h. ground arith }

    pub ensure_inventory_configmap-Same :
        (job : AnsibleReconcileJob) → Keeps Same (ensure_inventory_configmap P job)
    unfolding ensure_inventory_configmap get_ansible_hosts_in_namespace
        get_ansible_groups_in_namespace
    ensure_inventory_configmap-Same job = search (keeps_rules, ensure_configmap_with_data-Same)

    pub ensure_known_hosts-Same :
        (job : AnsibleReconcileJob) → Keeps Same (ensure_known_hosts_secret_exists P job)
    unfolding ensure_known_hosts_secret_exists
    ensure_known_hosts-Same job = search (keeps_rules, ensure_configmap_with_data-Same)

    pub ensure_runtime_config_map-Same :
        (job : AnsibleReconcileJob) → Keeps Same (ensure_runtime_config_map P job)
    unfolding ensure_runtime_config_map
    ensure_runtime_config_map-Same job = search (keeps_rules, ensure_configmap_with_data-Same)

    pub ensure_cronjob_with_mounts-Same :
        (job : AnsibleReconcileJob) → Keeps Same (ensure_cronjob_with_mounts P job)
    unfolding ensure_cronjob_with_mounts
    ensure_cronjob_with_mounts-Same job = record { at = λ s h. ground arith }

  -- Steps that keep what the server answers for a config map.
  module _ (laws : ConfigMapLaws P) (frame : FrameLaws P) (k : ObjectKey)
      (r : Result ConfigMap) where
    abbrev pub Answers : JobSession → Type 0
    Answers t = P.get_config_map k t.server ≡ r

    module _ (name : String) (wanted : Map String) (job : ObjectMeta)
        (ne : k ≢ map_key name job) where
      replace_data_frame :
          (cm : ConfigMap) (s : JobSession)
          → P.get_config_map (map_key name job) s.server ≡ ok cm
          → Answers s
          → Answers (replace_data P name wanted job cm s).1
      unfolding replace_data
      replace_data_frame cm s found =
          let updated : ConfigMap = record cm { data_map = some wanted } in
          let key : object_key cm.meta ≡ map_key name job =
            subst (λ r. OnOk (λ (c : ConfigMap). object_key c.meta ≡ map_key name job) r) found
              (laws.key-get (map_key name job) s.server) in
          λ h. ground (arith, frame.get-update_ne k updated s.server (λ e. ne (e ∙ key)))

      create_with_data_frame :
          (s : JobSession) → Answers s → Answers (create_with_data P name wanted job s).1
      unfolding create_with_data
      create_with_data_frame s =
          let bare : ObjectMeta = named name job.namespace in
          elim (Result-cases (P.set_controller_reference "AnsibleReconcileJob" job bare)) [
            | is_ok meta owned ↦
                let cm : ConfigMap = record { meta = meta; data_map = some wanted } in
                λ h. ground (
                  arith,
                  owned,
                  laws.controlled "AnsibleReconcileJob" job bare,
                  frame.get-create_ne k cm s.server,
                )
            | is_err f failed ↦ λ h. ground (arith, failed)
            | is_panic failed ↦ λ h. ground (arith, failed)
          ]

      pub ensure_configmap_with_data_frame :
          Keeps Answers (ensure_configmap_with_data P name wanted job)
      unfolding ensure_configmap_with_data
      ensure_configmap_with_data_frame = record {
        at = λ s h. elim (Result-cases (P.get_config_map (map_key name job) s.server)) [
          | is_ok cm found ↦ ground (arith, found, replace_data_frame cm s found h)
          | is_err e found ↦ ground (arith, found, create_with_data_frame s h)
          | is_panic found ↦ ground (arith, found)
        ];
      }

    apply_frame : (c : CronJob) → Keeps Answers (send (apply_cron_job c) (P.apply_cron_job c))
    apply_frame c = record { at = λ s h. ground (arith, h, frame.get-apply_cron_job k c s.server) }

    pub ensure_cronjob_with_mounts_frame :
        (job : AnsibleReconcileJob) → Keeps Answers (ensure_cronjob_with_mounts P job)
    unfolding ensure_cronjob_with_mounts
    ensure_cronjob_with_mounts_frame job = search (keeps_rules, apply_frame) depth 20

    pub set_condition_frame :
        (type : String) (status : ConditionStatus) (reason message : String)
        → Keeps Answers (set_condition P type status reason message)
    unfolding set_condition push_status
    set_condition_frame type status reason message = record {
      at = λ s h.
          let c : Condition = record {
            type = type;
            status = status;
            reason = reason;
            message = message;
          } in
          ground
            (arith, h, frame.get-reconcile_job_status k (with_condition P s.object c) s.server);
    }

    update_successful_status_frame : (job : Job) → Keeps Answers (update_successful_status P job)
    unfolding update_successful_status
    update_successful_status_frame job = search (keeps_rules, set_condition_frame, Keeps-if)

    update_progressing_status_frame : (job : Job) → Keeps Answers (update_progressing_status P job)
    unfolding update_progressing_status
    update_progressing_status_frame job = search (keeps_rules, set_condition_frame, Keeps-if)

    report_newest_frame : (newest : Option Started) → Keeps Answers (report_newest P newest)
    unfolding report_newest forget_jobs
    report_newest_frame none = search (keeps_rules, set_condition_frame)
    report_newest_frame (some n) =
        search (keeps_rules, update_successful_status_frame, update_progressing_status_frame)

    pub update_status_conditions_frame : Keeps Answers (update_status_conditions P)
    unfolding update_status_conditions report_jobs
    update_status_conditions_frame = search (keeps_rules, report_newest_frame)
