-- ===== src/ReconcileJob/CronJobs/Construct.antt =====
-- `constructCronjobWithMounts`: a pod with fixed containers and volumes, to which volumes and mounts
-- are appended, for the configuration, then for each key, group and host.
use ansible_operator.Base.{String, ◌<>◌, true, false, none, some, List, [], ◌∷◌, ◌++◌}
use ansible_operator.Api.{named}
use ansible_operator.Kube.{
  empty_dir, config_map, Volume, VolumeMount, SecurityContext, Container, CronJob,
}
use ansible_operator.ReconcileJob.Progress.{job_label_owner_reconcile_job}
use ansible_operator.ReconcileJob.CronJobs.Volumes.{
  playbooks_volume_name, dependencies_volume_name, inventory_volume_name, known_hosts_volume_name,
  runtime_config_volume_name, host_mount_suffix, group_mount_suffix, ssh_key_mount_suffix,
  build_read_only_volume_mount, build_volume_for_secret, build_volume_for_config_map,
  make_env_var_entry_from_config_map,
}

-- `ownerOwnedWithAnsibleNamePair`
pub record OwnerOwnedWithAnsibleNamePair : Type 0 where
  pub owner_ansible_name : String
  pub owner : String
  pub owned : String

-- the arguments of `constructCronjobWithMounts`
pub record CronJobInput : Type 0 where
  pub name : String
  pub namespace : String
  pub schedule : String
  pub reconcile_job_name : String
  pub runtime_config_map_name : String
  pub known_hosts_config_map_name : String
  pub inventory_config_map_name : String
  pub key_secrets : List OwnerOwnedWithAnsibleNamePair
  pub host_vars_entries : List OwnerOwnedWithAnsibleNamePair
  pub group_vars_entries : List OwnerOwnedWithAnsibleNamePair

abbrev pub restricted : SecurityContext
restricted = record {
  drop_capabilities = "ALL" ∷ [];
  run_as_non_root = some true;
  allow_privilege_escalation = some false;
  seccomp_profile = "RuntimeDefault";
}

-- a mount with no sub-path
abbrev whole_mount : String → String → VolumeMount
whole_mount name path = record { name = name; read_only = false; mount_path = path; sub_path = "" }

abbrev empty_dir_volume : String → Volume
empty_dir_volume name = record { name = name; source = empty_dir "5Gi" }

unfoldable pub init_container : Container
init_container = record {
  name = "init";
  image = "ghcr.io/lightjack05/ansible-operator-runner-init:latest";
  security_context = restricted;
  env = [];
  volume_mounts =
      whole_mount playbooks_volume_name "/playbook"
      ∷ whole_mount dependencies_volume_name "/deps"
      ∷ [];
}

unfoldable pub runner_container : Container
runner_container = record {
  name = "runner";
  image = "ghcr.io/lightjack05/ansible-operator-runner-runner:latest";
  security_context = restricted;
  env = [];
  volume_mounts =
      record (whole_mount playbooks_volume_name "/playbook") { read_only = true }
      ∷ record (whole_mount dependencies_volume_name "/deps") { read_only = true }
      ∷ [];
}

-- The literal with which the function begins. Its two containers are kept apart from the rest here,
-- as `InitContainers[0]` and `Containers[0]`, which all that follows appends to.
pub record Draft : Type 0 where
  pub init : Container
  pub runner : Container
  pub volumes : List Volume

unfoldable pub first_draft : Draft
unfolding init_container runner_container
first_draft = record {
  init = init_container;
  runner = runner_container;
  volumes = empty_dir_volume playbooks_volume_name ∷ empty_dir_volume dependencies_volume_name ∷ [];
}

-- the appends to `Volumes`, `Containers[0].VolumeMounts` and `InitContainers[0].VolumeMounts`
abbrev pub add_volume : Volume → Draft → Draft
add_volume v d = record d { volumes = d.volumes ++ (v ∷ []) }

abbrev pub mount_in : Container → VolumeMount → Container
mount_in c m = record c { volume_mounts = c.volume_mounts ++ (m ∷ []) }

abbrev pub add_runner_mount : VolumeMount → Draft → Draft
add_runner_mount m d = record d { runner = mount_in d.runner m }

abbrev pub add_init_mount : VolumeMount → Draft → Draft
add_init_mount m d = record d { init = mount_in d.init m }

unfoldable pub add_env : String → Draft → Draft
unfolding make_env_var_entry_from_config_map
add_env name d = record d {
  init = record d.init {
    env =
        make_env_var_entry_from_config_map "OPERATOR_GIT_REPO_URL" name "OPERATOR_GIT_REPO_URL"
        ∷ make_env_var_entry_from_config_map "OPERATOR_GIT_REF" name "OPERATOR_GIT_REF"
        ∷ make_env_var_entry_from_config_map "OPERATOR_GIT_PLAYBOOK_PATH" name
            "OPERATOR_GIT_PLAYBOOK_PATH"
        ∷ make_env_var_entry_from_config_map "OPERATOR_GIT_REQUIREMENTS_PATH" name
            "OPERATOR_GIT_REQUIREMENTS_PATH"
        ∷ [];
  };
}

abbrev runtime_config_volume : String → Volume
runtime_config_volume name = record {
  name = runtime_config_volume_name;
  source =
      config_map name
        (record { key = "playbook.yml"; path = "playbook.yml"; mode = none }
          ∷ record { key = "requirements.yml"; path = "requirements.yml"; mode = none }
          ∷ [])
        (some true);
}

abbrev runtime_config_mount : VolumeMount
runtime_config_mount = record (whole_mount runtime_config_volume_name "/config") {
  read_only = true;
}

unfoldable pub add_runtime_config : String → Draft → Draft
add_runtime_config name d =
    add_init_mount runtime_config_mount
      (add_runner_mount runtime_config_mount (add_volume (runtime_config_volume name) d))

-- the inventory and the known hosts, which only the runner sees
unfoldable pub add_inventory : String → Draft → Draft
unfolding build_volume_for_config_map build_read_only_volume_mount
add_inventory name d =
    add_runner_mount
      (build_read_only_volume_mount inventory_volume_name "/inventory/hosts.yaml" "hosts.yaml")
      (add_volume
        (build_volume_for_config_map inventory_volume_name name "inventory.yaml" "hosts.yaml") d)

unfoldable pub add_known_hosts : String → Draft → Draft
unfolding build_volume_for_config_map build_read_only_volume_mount
add_known_hosts name d =
    add_runner_mount
      (build_read_only_volume_mount known_hosts_volume_name "/ssh/known_hosts" "known_hosts")
      (add_volume
        (build_volume_for_config_map known_hosts_volume_name name "known_hosts" "known_hosts") d)

-- the bodies of the three loops
unfoldable pub add_key : OwnerOwnedWithAnsibleNamePair → Draft → Draft
unfolding build_volume_for_secret build_read_only_volume_mount
add_key e d =
    let name = e.owner <> ssh_key_mount_suffix in
    add_runner_mount (build_read_only_volume_mount name ("/ssh/keys/" <> e.owner) e.owner)
      (add_volume (build_volume_for_secret name e.owned "ssh_key" e.owner) d)

unfoldable pub add_group_vars : OwnerOwnedWithAnsibleNamePair → Draft → Draft
unfolding build_volume_for_config_map build_read_only_volume_mount
add_group_vars e d =
    let name = e.owner <> group_mount_suffix in
    add_runner_mount
      (build_read_only_volume_mount name ("/inventory/group_vars/" <> e.owner_ansible_name) e.owner)
      (add_volume (build_volume_for_config_map name e.owned "vars" e.owner) d)

unfoldable pub add_host_vars : OwnerOwnedWithAnsibleNamePair → Draft → Draft
unfolding build_volume_for_config_map build_read_only_volume_mount
add_host_vars e d =
    let name = e.owner <> host_mount_suffix in
    add_runner_mount
      (build_read_only_volume_mount name ("/inventory/host_vars/" <> e.owner_ansible_name) e.owner)
      (add_volume (build_volume_for_config_map name e.owned "vars" e.owner) d)

-- `for _, entry := range entries { body }`
unfoldable pub add_each :
    (OwnerOwnedWithAnsibleNamePair → Draft → Draft)
    → List OwnerOwnedWithAnsibleNamePair
    → Draft
    → Draft
add_each body [] d = d
add_each body (e ∷ es) d = add_each body es (body e d)

unfoldable pub draft : CronJobInput → Draft
unfolding first_draft add_env add_runtime_config add_inventory add_known_hosts add_each add_key
    add_group_vars add_host_vars
draft i = add_each add_host_vars i.host_vars_entries (
    add_each add_group_vars i.group_vars_entries (
      add_each add_key i.key_secrets (
        add_known_hosts i.known_hosts_config_map_name (
          add_inventory i.inventory_config_map_name (
            add_runtime_config i.runtime_config_map_name
              (add_env i.runtime_config_map_name first_draft))))))

unfoldable pub construct_cronjob_with_mounts : CronJobInput → CronJob
unfolding draft
construct_cronjob_with_mounts i =
    let d = draft i in
    record {
      meta = named i.name i.namespace;
      schedule = i.schedule;
      suspend = some false;
      concurrency_policy = "Forbid";
      template_labels = (job_label_owner_reconcile_job, i.reconcile_job_name) ∷ [];
      backoff_limit = some 1;
      pod = record {
        run_as_non_root = some true;
        fs_group = some 1000;
        restart_policy = "Never";
        init_containers = d.init ∷ [];
        containers = d.runner ∷ [];
        volumes = d.volumes;
      };
    }
