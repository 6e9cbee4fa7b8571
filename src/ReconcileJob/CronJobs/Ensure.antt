-- ===== src/ReconcileJob/CronJobs/Ensure.antt =====
-- `ensureCronjobWithMounts`: the cron job for the hosts and groups of the namespace.
use ansible_operator.Base.{◌<>◌, List, map, Exec, lift, with_error, wrap, ◌>>=◌}
use ansible_operator.Api.{AnsibleHost, AnsibleGroup, AnsibleReconcileJob}
use ansible_operator.Kube.{Platform, Session, apply_cron_job, read, send}
use ansible_operator.VarsConfigMap.{vars_config_map_suffix}
use ansible_operator.ReconcileJob.RuntimeConfig.{job_config_name_suffix}
use ansible_operator.ReconcileJob.KnownHosts.{known_hosts_config_map_name_suffix}
use ansible_operator.ReconcileJob.Inventory.Ensure.{inventory_config_map_name_suffix}
use ansible_operator.ReconcileJob.CronJobs.Construct.{
  OwnerOwnedWithAnsibleNamePair, CronJobInput, construct_cronjob_with_mounts,
}

abbrev pub host_ssh_key_pair : AnsibleHost → OwnerOwnedWithAnsibleNamePair
host_ssh_key_pair host = record {
  owner_ansible_name = host.spec.ansible_name;
  owner = host.meta.name;
  owned = host.spec.ssh.ssh_key_secret_ref.name;
}

abbrev pub host_var_pair : AnsibleHost → OwnerOwnedWithAnsibleNamePair
host_var_pair host = record {
  owner_ansible_name = host.spec.ansible_name;
  owner = host.meta.name;
  owned = host.meta.name <> vars_config_map_suffix;
}

abbrev pub group_var_pair : AnsibleGroup → OwnerOwnedWithAnsibleNamePair
group_var_pair group = record {
  owner_ansible_name = group.spec.ansible_name;
  owner = group.meta.name;
  owned = group.meta.name <> vars_config_map_suffix;
}

unfoldable pub cronjob_input :
    AnsibleReconcileJob → List AnsibleHost → List AnsibleGroup → CronJobInput
cronjob_input job hosts groups = record {
  name = job.meta.name;
  namespace = job.meta.namespace;
  schedule = job.spec.schedule;
  reconcile_job_name = job.meta.name;
  runtime_config_map_name = job.meta.name <> job_config_name_suffix;
  known_hosts_config_map_name = job.meta.name <> known_hosts_config_map_name_suffix;
  inventory_config_map_name = job.meta.name <> inventory_config_map_name_suffix;
  key_secrets = map host_ssh_key_pair hosts;
  host_vars_entries = map host_var_pair hosts;
  group_vars_entries = map group_var_pair groups;
}

unfoldable pub ensure_cronjob_with_mounts :
    (P : Platform) {T : Type 0} → AnsibleReconcileJob → Exec (Session P T) (Unit {0})
unfolding cronjob_input construct_cronjob_with_mounts
ensure_cronjob_with_mounts P job = do
  hosts ←
      with_error (wrap ("unable to list hosts in namespace " <> job.meta.namespace))
        (read (P.list_hosts job.meta.namespace))
  groups ←
      with_error (wrap ("unable to list groups in namespace " <> job.meta.namespace))
        (read (P.list_groups job.meta.namespace))
  let cj = construct_cronjob_with_mounts (cronjob_input job hosts groups)
  meta ←
      with_error (wrap "unable to set owner reference on cronjob")
        (lift (P.set_controller_reference "AnsibleReconcileJob" job.meta cj.meta))
  applied ←
      with_error (wrap "failed to unstructure object")
        (lift (P.to_unstructured (record cj { meta = meta })))
  with_error (wrap ("failed to server-side apply cronjob for reconcileJob " <> job.meta.name))
      (send (apply_cron_job applied) (P.apply_cron_job applied))
