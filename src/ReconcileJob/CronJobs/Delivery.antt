-- ===== src/ReconcileJob/CronJobs/Delivery.antt =====
-- What the runner finds in its pod: the config maps and secrets of the hosts and groups, under the
-- paths where Ansible looks for them.
pub mod Files
pub mod KeyLine
pub mod Unique
use mathlib.Core.List.{Memᴰ}
use mathlib.Core.List.Memᴰ
use mathlib.Core.Path.{subst}
use text.Mathlib.TextLemmas.{append_assoc, nil-append}
use ansible_operator.Base.{
  ℕ, String, ◌<>◌, ◌≡◌, refl, sym, none, some, List, [], ◌∷◌, ◌++◌, map, All, All-impl, All-of,
  OnOk, Option-cases, inl, inr, true, ap, ◌∙◌,
}
use ansible_operator.Api.{AnsibleHost, AnsibleGroup, AnsibleReconcileJob}
use ansible_operator.Kube.{
  Volume, VolumeMount, VolumeSource, config_map, secret, KeyToPath, Container, PodSpec,
}
use ansible_operator.VarsConfigMap.{vars_key, vars_config_map_key}
use ansible_operator.Host.Secrets.{ssh_key_secret_key, secret_key_of}
use ansible_operator.ReconcileJob.ConfigMaps.Laws.{map_key}
use ansible_operator.ReconcileJob.RuntimeConfig.{job_config_name_suffix}
use ansible_operator.ReconcileJob.KnownHosts.{
  known_hosts_config_map_key, known_hosts_config_map_name_suffix,
}
use ansible_operator.ReconcileJob.Inventory.Content.{InventoryContentHost, map_ansible_host}
use ansible_operator.ReconcileJob.Inventory.Render.{render_host}
use ansible_operator.ReconcileJob.Inventory.Ensure.{
  inventory_config_map_key, inventory_config_map_name_suffix,
}
use ansible_operator.ReconcileJob.CronJobs.Volumes.{
  host_mount_suffix, group_mount_suffix, ssh_key_mount_suffix, inventory_volume_name,
  known_hosts_volume_name, build_read_only_volume_mount, build_volume_for_secret,
  build_volume_for_config_map,
}
use ansible_operator.ReconcileJob.CronJobs.Construct.{
  OwnerOwnedWithAnsibleNamePair, CronJobInput, Draft, first_draft, add_env, add_runtime_config,
  add_volume, add_runner_mount, add_inventory, add_known_hosts, add_key, add_group_vars,
  add_host_vars, add_each, draft, construct_cronjob_with_mounts,
}
use ansible_operator.ReconcileJob.CronJobs.Ensure.{
  host_ssh_key_pair, host_var_pair, group_var_pair, cronjob_input,
}
use ansible_operator.ReconcileJob.CronJobs.Names.{
  Distinct, volume_names, construct_cronjob_with_mounts-Distinct,
}
use ansible_operator.ReconcileJob.CronJobs.Paths.{mount_paths, Distinct-mount_paths}
use ansible_operator.ReconcileJob.CronJobs.Delivery.Unique.{Sole, Distinct-Sole, map_pairs}
use ansible_operator.ReconcileJob.CronJobs.Delivery.KeyLine.{EndsIn, key_line, render_host-EndsIn}
use ansible_operator.ReconcileJob.CronJobs.Delivery.Files.{
  File, volume_of, mount_of, OnDraft, add_file, OnDraft-new, OnDraft-add, from_config_map, key_file,
  group_vars_file, host_vars_file, OnDraft-keep, OnDraft-each, key_name, host_name, group_name,
  add_key-file, add_group_vars-file, add_host_vars-file, OnDraft-loops,
}

-- A volume of the pod has the file, and a container of it mounts that volume under the path. No
-- other volume has its name, and the container has no other mount with the path.
abbrev pub Delivers : PodSpec → File → Type 0
Delivers pod f =
    (name : String) × (c : Container) × Sole (λ v. v.name) (volume_of name f) pod.volumes
    × Memᴰ c pod.containers
    × Sole (λ m. m.mount_path) (mount_of name f) c.volume_mounts

-- No two hosts and no two groups have the same name, nor the same Ansible name.
pub record Distinguished (hosts : List AnsibleHost) (groups : List AnsibleGroup) : Type 0 where
  pub hosts_named : Distinct (map (λ (h : AnsibleHost). h.meta.name) hosts)
  pub groups_named : Distinct (map (λ (g : AnsibleGroup). g.meta.name) groups)
  pub hosts_called : Distinct (map (λ (h : AnsibleHost). h.spec.ansible_name) hosts)
  pub groups_called : Distinct (map (λ (g : AnsibleGroup). g.spec.ansible_name) groups)

-- The files for a host, a group and the job itself.
abbrev pub key_of_host : AnsibleHost → File
key_of_host host = record {
  source =
      secret host.spec.ssh.ssh_key_secret_ref.name
        (record { key = ssh_key_secret_key; path = host.meta.name; mode = some 0o600 } ∷ []);
  path = "/ssh/keys/" <> host.meta.name;
  sub_path = host.meta.name;
}

abbrev pub vars_of_host : AnsibleHost → File
vars_of_host host =
    from_config_map (vars_key host.meta).name vars_config_map_key
      ("/inventory/host_vars/" <> host.spec.ansible_name) host.meta.name

abbrev pub vars_of_group : AnsibleGroup → File
vars_of_group group =
    from_config_map (vars_key group.meta).name vars_config_map_key
      ("/inventory/group_vars/" <> group.spec.ansible_name) group.meta.name

abbrev pub inventory_of : AnsibleReconcileJob → File
inventory_of job =
    from_config_map (map_key (job.meta.name <> inventory_config_map_name_suffix) job.meta).name
      inventory_config_map_key "/inventory/hosts.yaml" "hosts.yaml"

abbrev pub known_hosts_of : AnsibleReconcileJob → File
known_hosts_of job =
    from_config_map (map_key (job.meta.name <> known_hosts_config_map_name_suffix) job.meta).name
      known_hosts_config_map_key "/ssh/known_hosts" "known_hosts"

module _ (job : AnsibleReconcileJob) (hosts : List AnsibleHost) (groups : List AnsibleGroup) where
  abbrev pub pod : PodSpec
  pod = (construct_cronjob_with_mounts (cronjob_input job hosts groups)).pod

  Distinct-volumes : Distinguished hosts groups → Distinct (volume_names pod.volumes)
  unfolding cronjob_input
  Distinct-volumes d =
      construct_cronjob_with_mounts-Distinct (cronjob_input job hosts groups)
        (subst Distinct (sym (map_pairs _ host_ssh_key_pair hosts)) d.hosts_named)
        (subst Distinct (sym (map_pairs _ group_var_pair groups)) d.groups_named)
        (subst Distinct (sym (map_pairs _ host_var_pair hosts)) d.hosts_named)

  Distinct-mounts :
      Distinguished hosts groups
      → Distinct (mount_paths (draft (cronjob_input job hosts groups)).runner.volume_mounts)
  unfolding cronjob_input
  Distinct-mounts d =
      Distinct-mount_paths (cronjob_input job hosts groups)
        (subst Distinct (sym (map_pairs _ host_ssh_key_pair hosts)) d.hosts_named)
        (subst Distinct (sym (map_pairs _ group_var_pair groups)) d.groups_called)
        (subst Distinct (sym (map_pairs _ host_var_pair hosts)) d.hosts_called)

module _ (job : AnsibleReconcileJob) (hosts : List AnsibleHost) (groups : List AnsibleGroup)
    (distinguished : Distinguished hosts groups) where
  abbrev podded : PodSpec
  podded = pod job hosts groups

  delivered : (f : File) → OnDraft f (draft (cronjob_input job hosts groups)) → Delivers podded f
  unfolding construct_cronjob_with_mounts
  delivered f (name, v, m) =
      let runner = (draft (cronjob_input job hosts groups)).runner in
      (
        name,
        runner,
        Distinct-Sole (λ v. v.name) podded.volumes (volume_of name f)
            (Distinct-volumes job hosts groups distinguished) v,
        Memᴰ.head refl,
        Distinct-Sole (λ m. m.mount_path) runner.volume_mounts (mount_of name f)
            (Distinct-mounts job hosts groups distinguished) m,
      )

  -- the draft before the inventory is added, with it, and with the known hosts
  abbrev configured : Draft
  configured =
      add_runtime_config (job.meta.name <> job_config_name_suffix)
        (add_env (job.meta.name <> job_config_name_suffix) first_draft)

  abbrev with_inventory : Draft
  with_inventory = add_inventory (job.meta.name <> inventory_config_map_name_suffix) configured

  abbrev with_known_hosts : Draft
  with_known_hosts =
      add_known_hosts (job.meta.name <> known_hosts_config_map_name_suffix) with_inventory

  of_start : (f : File) → OnDraft f with_known_hosts → Delivers podded f
  unfolding draft cronjob_input
  of_start f h = delivered f (
      OnDraft-loops f (map host_ssh_key_pair hosts) (map group_var_pair groups)
        (map host_var_pair hosts) with_known_hosts h)

  inventory_delivered : Delivers podded (inventory_of job)
  unfolding add_inventory add_known_hosts build_volume_for_config_map build_read_only_volume_mount
  inventory_delivered = of_start (inventory_of job) (
      OnDraft-add (inventory_of job) (known_hosts_of job) known_hosts_volume_name with_inventory
        (OnDraft-new inventory_volume_name (inventory_of job) configured))

  known_hosts_delivered : Delivers podded (known_hosts_of job)
  unfolding add_known_hosts build_volume_for_config_map build_read_only_volume_mount
  known_hosts_delivered =
      of_start (known_hosts_of job)
        (OnDraft-new known_hosts_volume_name (known_hosts_of job) with_inventory)

  abbrev with_keys : Draft
  with_keys = add_each add_key (map host_ssh_key_pair hosts) with_known_hosts

  abbrev with_groups : Draft
  with_groups = add_each add_group_vars (map group_var_pair groups) with_keys

  -- What a loop over the pairs of some objects adds, for the objects.
  of_pairs :
      {A : Type 0} (pair : A → OwnerOwnedWithAnsibleNamePair)
      (file : OwnerOwnedWithAnsibleNamePair → File) (xs : List A)
      → All (λ e. OnDraft (file e) (draft (cronjob_input job hosts groups))) (map pair xs)
      → All (λ x. Delivers podded (file (pair x))) xs
  of_pairs pair file [] _ = tt
  of_pairs pair file (x ∷ xs) (h, rest) = (delivered (file (pair x)) h, of_pairs pair file xs rest)

  host_vars_delivered : All (λ host. Delivers podded (vars_of_host host)) hosts
  unfolding draft cronjob_input
  host_vars_delivered = of_pairs host_var_pair host_vars_file hosts (
      OnDraft-each add_host_vars host_name host_vars_file add_host_vars-file
        (map host_var_pair hosts) with_groups)

  group_vars_delivered : All (λ group. Delivers podded (vars_of_group group)) groups
  unfolding draft cronjob_input
  group_vars_delivered = of_pairs group_var_pair group_vars_file groups (
      All-impl _ _
        (λ e.
          OnDraft-keep add_host_vars host_name host_vars_file add_host_vars-file (group_vars_file e)
            (map host_var_pair hosts) with_groups)
        (map group_var_pair groups)
        (OnDraft-each add_group_vars group_name group_vars_file add_group_vars-file
          (map group_var_pair groups) with_keys))

  keys_delivered : All (λ host. Delivers podded (key_of_host host)) hosts
  unfolding draft cronjob_input
  keys_delivered = of_pairs host_ssh_key_pair key_file hosts (
      All-impl _ _
        (λ e h.
          OnDraft-keep add_host_vars host_name host_vars_file add_host_vars-file (key_file e)
            (map host_var_pair hosts) with_groups
            (OnDraft-keep add_group_vars group_name group_vars_file add_group_vars-file (key_file e)
              (map group_var_pair groups) with_keys h))
        (map host_ssh_key_pair hosts)
        (OnDraft-each add_key key_name key_file add_key-file (map host_ssh_key_pair hosts)
          with_known_hosts))

map_ansible_host-EndsIn :
    (host : AnsibleHost)
    → OnOk (λ c. EndsIn (key_line (key_of_host host).path) (render_host c)) (map_ansible_host host)
unfolding map_ansible_host
map_ansible_host-EndsIn host = elim (Option-cases host.spec.privilege) [
  | inl missing ↦ rw missing tt
  | inr (privilege, there) ↦ rw there (render_host-EndsIn _)
]

-- What the runner finds in the cron job that is drawn up for a job, hosts and groups, where no two hosts
-- and no two groups have the same name, nor the same Ansible name. For each host: the key `ssh_key` of
-- its private key secret, under the path that the inventory entry of the host names, and the key `vars`
-- of its variables' config map under `host_vars`. For each group: the same key of its config map under
-- `group_vars`. And the inventory and the known hosts, from the config maps of the job that hold
-- them. Each is in a volume with a name of its own, which a container mounts under a path of its own.
pub construct_cronjob_with_mounts-Delivers :
    (job : AnsibleReconcileJob) (hosts : List AnsibleHost) (groups : List AnsibleGroup)
    → Distinguished hosts groups
    → All (λ host. Delivers (pod job hosts groups) (key_of_host host)) hosts
      × All
          (λ host.
            OnOk
              (λ c. EndsIn (key_line (key_of_host host).path) (render_host c))
              (map_ansible_host host))
          hosts
      × All (λ host. Delivers (pod job hosts groups) (vars_of_host host)) hosts
      × All (λ group. Delivers (pod job hosts groups) (vars_of_group group)) groups
      × Delivers (pod job hosts groups) (inventory_of job)
      × Delivers (pod job hosts groups) (known_hosts_of job)
construct_cronjob_with_mounts-Delivers job hosts groups d = (
  keys_delivered job hosts groups d,
  All-of _ map_ansible_host-EndsIn hosts,
  host_vars_delivered job hosts groups d,
  group_vars_delivered job hosts groups d,
  inventory_delivered job hosts groups d,
  known_hosts_delivered job hosts groups d,
)
