-- ===== src/ReconcileJob/CronJobs/Delivery/Files.antt =====
-- Files in a pod that is being drawn up: a volume and its mount, added together, and kept by what is
-- added later.
use mathlib.Core.List.{Memᴰ}
use mathlib.Core.List.Memᴰ
use ansible_operator.Base.{String, ◌<>◌, ◌≡◌, refl, none, some, List, [], ◌∷◌, All, true}
use ansible_operator.Kube.{Volume, VolumeMount, VolumeSource, config_map, secret}
use ansible_operator.ReconcileJob.CronJobs.Volumes.{
  host_mount_suffix, group_mount_suffix, ssh_key_mount_suffix, build_read_only_volume_mount,
  build_volume_for_secret, build_volume_for_config_map,
}
use ansible_operator.ReconcileJob.CronJobs.Construct.{
  OwnerOwnedWithAnsibleNamePair, Draft, add_volume, add_runner_mount, add_key, add_group_vars,
  add_host_vars, add_each,
}

-- A file of the pod: the volume that has it, and where a container sees it, read-only.
pub record File : Type 0 where
  pub source : VolumeSource
  pub path : String
  pub sub_path : String

abbrev pub volume_of : String → File → Volume
volume_of name f = record { name = name; source = f.source }

abbrev pub mount_of : String → File → VolumeMount
mount_of name f = record {
  name = name;
  read_only = true;
  mount_path = f.path;
  sub_path = f.sub_path;
}

abbrev pub OnDraft : File → Draft → Type 0
OnDraft f d =
    (name : String) × Memᴰ (volume_of name f) d.volumes
    × Memᴰ (mount_of name f) d.runner.volume_mounts

abbrev pub add_file : String → File → Draft → Draft
add_file name f d = add_runner_mount (mount_of name f) (add_volume (volume_of name f) d)

pub OnDraft-new : (name : String) (f : File) (d : Draft) → OnDraft f (add_file name f d)
OnDraft-new name f d = (
  name,
  Memᴰ.append_right d.volumes (Memᴰ.head refl),
  Memᴰ.append_right d.runner.volume_mounts (Memᴰ.head refl),
)

pub OnDraft-add :
    (f g : File) (name : String) (d : Draft) → OnDraft f d → OnDraft f (add_file name g d)
OnDraft-add f g name d (n, v, m) =
    (n, Memᴰ.append_left (volume_of name g ∷ []) v, Memᴰ.append_left (mount_of name g ∷ []) m)

-- The files that the steps add.
abbrev pub from_config_map : String → String → String → String → File
from_config_map cm key path sub = record {
  source = config_map cm (record { key = key; path = sub; mode = none } ∷ []) none;
  path = path;
  sub_path = sub;
}

abbrev pub key_file : OwnerOwnedWithAnsibleNamePair → File
key_file e = record {
  source = secret e.owned (record { key = "ssh_key"; path = e.owner; mode = some 0o600 } ∷ []);
  path = "/ssh/keys/" <> e.owner;
  sub_path = e.owner;
}

abbrev pub group_vars_file : OwnerOwnedWithAnsibleNamePair → File
group_vars_file e =
    from_config_map e.owned "vars" ("/inventory/group_vars/" <> e.owner_ansible_name) e.owner

abbrev pub host_vars_file : OwnerOwnedWithAnsibleNamePair → File
host_vars_file e =
    from_config_map e.owned "vars" ("/inventory/host_vars/" <> e.owner_ansible_name) e.owner

module _ (body : OwnerOwnedWithAnsibleNamePair → Draft → Draft)
    (name : OwnerOwnedWithAnsibleNamePair → String) (file : OwnerOwnedWithAnsibleNamePair → File)
    (same : (e : OwnerOwnedWithAnsibleNamePair) (d : Draft)
      → body e d ≡ add_file (name e) (file e) d) where
  pub OnDraft-keep :
      (f : File) (es : List OwnerOwnedWithAnsibleNamePair) (d : Draft)
      → OnDraft f d
      → OnDraft f (add_each body es d)
  unfolding add_each
  OnDraft-keep f [] d h = h
  OnDraft-keep f (e ∷ es) d h =
      OnDraft-keep f es (body e d) (rw (same e d) (OnDraft-add f (file e) (name e) d h))

  pub OnDraft-each :
      (es : List OwnerOwnedWithAnsibleNamePair) (d : Draft)
      → All (λ e. OnDraft (file e) (add_each body es d)) es
  unfolding add_each
  OnDraft-each [] d = tt
  OnDraft-each (e ∷ es) d = (
    OnDraft-keep (file e) es (body e d) (rw (same e d) (OnDraft-new (name e) (file e) d)),
    OnDraft-each es (body e d),
  )

abbrev pub key_name : OwnerOwnedWithAnsibleNamePair → String
key_name e = e.owner <> ssh_key_mount_suffix

abbrev pub host_name : OwnerOwnedWithAnsibleNamePair → String
host_name e = e.owner <> host_mount_suffix

abbrev pub group_name : OwnerOwnedWithAnsibleNamePair → String
group_name e = e.owner <> group_mount_suffix

pub add_key-file :
    (e : OwnerOwnedWithAnsibleNamePair) (d : Draft)
    → add_key e d ≡ add_file (key_name e) (key_file e) d
unfolding add_key build_volume_for_secret build_read_only_volume_mount
add_key-file e d = refl

pub add_group_vars-file :
    (e : OwnerOwnedWithAnsibleNamePair) (d : Draft)
    → add_group_vars e d ≡ add_file (group_name e) (group_vars_file e) d
unfolding add_group_vars build_volume_for_config_map build_read_only_volume_mount
add_group_vars-file e d = refl

pub add_host_vars-file :
    (e : OwnerOwnedWithAnsibleNamePair) (d : Draft)
    → add_host_vars e d ≡ add_file (host_name e) (host_vars_file e) d
unfolding add_host_vars build_volume_for_config_map build_read_only_volume_mount
add_host_vars-file e d = refl

-- What is there before the loops over keys, groups and hosts is there after them.
pub OnDraft-loops :
    (f : File) (keys groups hosts : List OwnerOwnedWithAnsibleNamePair) (d : Draft)
    → OnDraft f d
    → OnDraft f
        (add_each add_host_vars hosts (add_each add_group_vars groups (add_each add_key keys d)))
OnDraft-loops f keys groups hosts d h =
    OnDraft-keep add_host_vars host_name host_vars_file add_host_vars-file f hosts _ (
      OnDraft-keep add_group_vars group_name group_vars_file add_group_vars-file f groups _
        (OnDraft-keep add_key key_name key_file add_key-file f keys d h))
