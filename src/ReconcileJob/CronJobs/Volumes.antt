-- ===== src/ReconcileJob/CronJobs/Volumes.antt =====
-- The names and paths of the constants, and the builders of volumes and mounts.
use ansible_operator.Base.{ℕ, String, true, none, some, [], ◌∷◌}
use ansible_operator.Kube.{config_map, secret, Volume, VolumeMount, EnvVar}

abbrev pub playbooks_volume_name : String
playbooks_volume_name = "playbooks"

abbrev pub dependencies_volume_name : String
dependencies_volume_name = "deps"

abbrev pub inventory_volume_name : String
inventory_volume_name = "inventory"

abbrev pub known_hosts_volume_name : String
known_hosts_volume_name = "knownhosts"

abbrev pub runtime_config_volume_name : String
runtime_config_volume_name = "runtimeconfig"

abbrev pub host_mount_suffix : String
host_mount_suffix = "-host-mount"

abbrev pub group_mount_suffix : String
group_mount_suffix = "-group-mount"

abbrev pub ssh_key_mount_suffix : String
ssh_key_mount_suffix = "-key-mount"

-- `0o600`
abbrev private_mode : ℕ
private_mode = 0o600

unfoldable pub build_read_only_volume_mount : String → String → String → VolumeMount
build_read_only_volume_mount name mount_path sub_path = record {
  name = name;
  read_only = true;
  mount_path = mount_path;
  sub_path = sub_path;
}

unfoldable pub build_volume_for_secret : String → String → String → String → Volume
build_volume_for_secret name secret_name key path = record {
  name = name;
  source = secret secret_name (record { key = key; path = path; mode = some private_mode } ∷ []);
}

unfoldable pub build_volume_for_config_map : String → String → String → String → Volume
build_volume_for_config_map name config_map_name key path = record {
  name = name;
  source = config_map config_map_name (record { key = key; path = path; mode = none } ∷ []) none;
}

-- the closure `makeEnvVarEntryFromConfigMap`
unfoldable pub make_env_var_entry_from_config_map : String → String → String → EnvVar
make_env_var_entry_from_config_map variable configmap key = record {
  name = variable;
  config_map = configmap;
  key = key;
  is_optional = some true;
}
