-- ===== src/ReconcileJob/CronJobs/Mounts.antt =====
-- The mounts of the runner's pod, against its volumes.
use ansible_operator.Base.{
  String, ◌≡◌, refl, sym, ◌⊎◌, inl, inr, List, [], ◌∷◌, ◌++◌, All, All-append,
}
use ansible_operator.Kube.{Volume, VolumeMount, Container}
use ansible_operator.ReconcileJob.CronJobs.Volumes.{
  build_read_only_volume_mount, build_volume_for_secret, build_volume_for_config_map,
}
use ansible_operator.ReconcileJob.CronJobs.Construct.{
  OwnerOwnedWithAnsibleNamePair, CronJobInput, Draft, init_container, runner_container, first_draft,
  add_volume, add_runner_mount, add_env, add_runtime_config, add_inventory, add_known_hosts,
  add_key, add_group_vars, add_host_vars, add_each, draft, construct_cronjob_with_mounts,
}

-- There is a volume of this name.
abbrev pub HasVolume : String → List Volume → Type 0
HasVolume name [] = ⊥
HasVolume name (v ∷ vs) = (v.name ≡ name) ⊎ HasVolume name vs

-- Every mount names a volume.
abbrev pub Mounted : List VolumeMount → List Volume → Type 0
Mounted mounts volumes = All (λ m. HasVolume m.name volumes) mounts

HasVolume-append :
    (name : String) (vs : List Volume) (v : Volume)
    → HasVolume name vs
    → HasVolume name (vs ++ (v ∷ []))
HasVolume-append name [] v h = absurd h
HasVolume-append name (u ∷ vs) v (inl here) = inl here
HasVolume-append name (u ∷ vs) v (inr there) = inr (HasVolume-append name vs v there)

HasVolume-last : (vs : List Volume) (v : Volume) → HasVolume v.name (vs ++ (v ∷ []))
HasVolume-last [] v = inl refl
HasVolume-last (u ∷ vs) v = inr (HasVolume-last vs v)

Mounted-append :
    (ms : List VolumeMount) (vs : List Volume) (v : Volume)
    → Mounted ms vs
    → Mounted ms (vs ++ (v ∷ []))
Mounted-append [] vs v h = tt
Mounted-append (m ∷ ms) vs v (p, h) = (HasVolume-append m.name vs v p, Mounted-append ms vs v h)

-- So do those of both containers.
record Resolved (d : Draft) : Type 0 where
  in_runner : Mounted d.runner.volume_mounts d.volumes
  in_init : Mounted d.init.volume_mounts d.volumes

-- A volume is added together with a mount of it in the runner.
Resolved-add :
    (m : VolumeMount) (v : Volume) (d : Draft)
    → v.name ≡ m.name
    → Resolved d
    → Resolved (add_runner_mount m (add_volume v d))
Resolved-add m v d same r = record {
  in_runner =
      All-append (λ n. HasVolume n.name (d.volumes ++ (v ∷ []))) d.runner.volume_mounts (m ∷ [])
        (Mounted-append d.runner.volume_mounts d.volumes v r.in_runner)
        (rw (sym same) (HasVolume-last d.volumes v), tt);
  in_init = Mounted-append d.init.volume_mounts d.volumes v r.in_init;
}

Resolved-add_each :
    (body : OwnerOwnedWithAnsibleNamePair → Draft → Draft)
    → ((e : OwnerOwnedWithAnsibleNamePair) (d : Draft) → Resolved d → Resolved (body e d))
    → (es : List OwnerOwnedWithAnsibleNamePair) (d : Draft) → Resolved d
    → Resolved (add_each body es d)
unfolding add_each
Resolved-add_each body h [] d r = r
Resolved-add_each body h (e ∷ es) d r = Resolved-add_each body h es (body e d) (h e d r)

Resolved-first_draft :
    (name : String) → Resolved (add_runtime_config name (add_env name first_draft))
unfolding first_draft add_env add_runtime_config init_container runner_container
Resolved-first_draft name = record {
  in_runner = (inl refl, (inr (inl refl), (inr (inr (inl refl)), tt)));
  in_init = (inl refl, (inr (inl refl), (inr (inr (inl refl)), tt)));
}

Resolved-add_inventory : (name : String) (d : Draft) → Resolved d → Resolved (add_inventory name d)
unfolding add_inventory build_volume_for_config_map build_read_only_volume_mount
Resolved-add_inventory name d = Resolved-add _ _ d refl

Resolved-add_known_hosts :
    (name : String) (d : Draft) → Resolved d → Resolved (add_known_hosts name d)
unfolding add_known_hosts build_volume_for_config_map build_read_only_volume_mount
Resolved-add_known_hosts name d = Resolved-add _ _ d refl

Resolved-add_key :
    (e : OwnerOwnedWithAnsibleNamePair) (d : Draft) → Resolved d → Resolved (add_key e d)
unfolding add_key build_volume_for_secret build_read_only_volume_mount
Resolved-add_key e d = Resolved-add _ _ d refl

Resolved-add_group_vars :
    (e : OwnerOwnedWithAnsibleNamePair) (d : Draft) → Resolved d → Resolved (add_group_vars e d)
unfolding add_group_vars build_volume_for_config_map build_read_only_volume_mount
Resolved-add_group_vars e d = Resolved-add _ _ d refl

Resolved-add_host_vars :
    (e : OwnerOwnedWithAnsibleNamePair) (d : Draft) → Resolved d → Resolved (add_host_vars e d)
unfolding add_host_vars build_volume_for_config_map build_read_only_volume_mount
Resolved-add_host_vars e d = Resolved-add _ _ d refl

draft-Resolved : (i : CronJobInput) → Resolved (draft i)
unfolding draft
draft-Resolved i = Resolved-add_each add_host_vars Resolved-add_host_vars i.host_vars_entries _ (
    Resolved-add_each add_group_vars Resolved-add_group_vars i.group_vars_entries _ (
      Resolved-add_each add_key Resolved-add_key i.key_secrets _ (
        Resolved-add_known_hosts i.known_hosts_config_map_name _ (
          Resolved-add_inventory i.inventory_config_map_name _
            (Resolved-first_draft i.runtime_config_map_name)))))

-- Every mount of every container, by the volumes of the pod.
abbrev pub AllMounted : List Container → List Volume → Type 0
AllMounted containers volumes = All (λ c. Mounted c.volume_mounts volumes) containers

-- Whatever hosts, groups and secrets the cron job is made for, every volume mount of every container
-- of its pod, the init containers included, names a volume of the pod.
pub construct_cronjob_with_mounts-AllMounted :
    (i : CronJobInput)
    → AllMounted
        (construct_cronjob_with_mounts i).pod.init_containers
        (construct_cronjob_with_mounts i).pod.volumes
      × AllMounted
          (construct_cronjob_with_mounts i).pod.containers
          (construct_cronjob_with_mounts i).pod.volumes
unfolding construct_cronjob_with_mounts
construct_cronjob_with_mounts-AllMounted i =
    let r = draft-Resolved i in ((r.in_init, tt), (r.in_runner, tt))
