-- ===== src/ReconcileJob/CronJobs/Paths.antt =====
-- The paths at which the runner mounts its volumes, which Kubernetes wants to differ.
use text.Mathlib.TextLemmas.{append_assoc, append_inj, append_cancel_left}
use Prim.Native.String.{count}
use mathlib.Core.List.{append-nil, append_assoc as list_append_assoc}
use ansible_operator.Base.{
  String, ◌<>◌, ◌≡◌, ◌≢◌, refl, sym, ap, ◌∙◌, List, [], ◌∷◌, ◌++◌, map, All, ne_of_test,
}
use ansible_operator.Kube.{VolumeMount}
use ansible_operator.ReconcileJob.CronJobs.Volumes.{build_read_only_volume_mount}
use ansible_operator.ReconcileJob.CronJobs.Construct.{
  OwnerOwnedWithAnsibleNamePair, CronJobInput, Draft, first_draft, runner_container, add_env,
  add_runtime_config, add_inventory, add_known_hosts, add_key, add_group_vars, add_host_vars,
  add_each, draft,
}
use ansible_operator.ReconcileJob.CronJobs.Names.{
  Distinct, Apart, Distinct-append, Apart-both, owners,
}

-- Texts that start in different ways differ.
starts_ne : (x a y b c : String) → count x ≡ count y → x ≢ y → x <> a ≢ (y <> b) <> c
starts_ne x a y b c same ne e = ne (append_inj (e ∙ append_assoc y b c) same).0

starts_ne_both : (x a b y c d : String) → count x ≡ count y → x ≢ y → (x <> a) <> b ≢ (y <> c) <> d
starts_ne_both x a b y c d same ne e =
    starts_ne x (a <> b) y c d same ne (sym (append_assoc x a b) ∙ e)

abbrev pub ansible_names : List OwnerOwnedWithAnsibleNamePair → List String
ansible_names = map (λ e. e.owner_ansible_name)

module _ (key : OwnerOwnedWithAnsibleNamePair → String) where
  -- the paths below a directory for a list of entries
  abbrev paths_in : String → List OwnerOwnedWithAnsibleNamePair → List String
  paths_in dir = map (λ e. dir <> key e)

  ne_paths_in :
      (path dir : String) (es : List OwnerOwnedWithAnsibleNamePair)
      → ((name : String) → path ≢ dir <> name)
      → All (λ y. path ≢ y) (paths_in dir es)
  ne_paths_in path dir [] ne = tt
  ne_paths_in path dir (e ∷ es) ne = (ne (key e), ne_paths_in path dir es ne)

  path_ne_paths_in :
      (dir name : String) (es : List OwnerOwnedWithAnsibleNamePair)
      → All (λ y. name ≢ y) (map key es)
      → All (λ y. dir <> name ≢ y) (paths_in dir es)
  path_ne_paths_in dir name [] _ = tt
  path_ne_paths_in dir name (e ∷ es) (ne, rest) =
      (λ same. ne (append_cancel_left dir name (key e) same), path_ne_paths_in dir name es rest)

  Distinct-paths_in :
      (dir : String) (es : List OwnerOwnedWithAnsibleNamePair)
      → Distinct (map key es)
      → Distinct (paths_in dir es)
  Distinct-paths_in dir [] _ = tt
  Distinct-paths_in dir (e ∷ es) (p, d) =
      (path_ne_paths_in dir (key e) es p, Distinct-paths_in dir es d)

Apart-paths_in :
    (key key' : OwnerOwnedWithAnsibleNamePair → String) (dir dir' : String)
    (es fs : List OwnerOwnedWithAnsibleNamePair)
    → ((a b : String) → dir <> a ≢ dir' <> b)
    → Apart (paths_in key dir es) (paths_in key' dir' fs)
Apart-paths_in key key' dir dir' [] fs ne = tt
Apart-paths_in key key' dir dir' (e ∷ es) fs ne = (
  ne_paths_in key' (dir <> key e) dir' fs (ne (key e)),
  Apart-paths_in key key' dir dir' es fs ne,
)

abbrev key_dir : String
key_dir = "/ssh/keys/"

abbrev group_vars_dir : String
group_vars_dir = "/inventory/group_vars/"

abbrev host_vars_dir : String
host_vars_dir = "/inventory/host_vars/"

abbrev fixed_paths : List String
fixed_paths = "/playbook" ∷ "/deps" ∷ "/config" ∷ "/inventory/hosts.yaml" ∷ "/ssh/known_hosts" ∷ []

Distinct-fixed_paths : Distinct fixed_paths
Distinct-fixed_paths = (
  (ne_of_test _ _ refl, (ne_of_test _ _ refl, (ne_of_test _ _ refl, (ne_of_test _ _ refl, tt)))),
  (
    (ne_of_test _ _ refl, (ne_of_test _ _ refl, (ne_of_test _ _ refl, tt))),
    ((ne_of_test _ _ refl, (ne_of_test _ _ refl, tt)), ((ne_of_test _ _ refl, tt), (tt, tt))),
  ),
)

Apart-fixed_paths :
    (key : OwnerOwnedWithAnsibleNamePair → String) (dir : String)
    (es : List OwnerOwnedWithAnsibleNamePair) (paths : List String)
    → All (λ path. (name : String) → path ≢ dir <> name) paths
    → Apart paths (paths_in key dir es)
Apart-fixed_paths key dir es [] _ = tt
Apart-fixed_paths key dir es (p ∷ ps) (ne, rest) =
    (ne_paths_in key p dir es ne, Apart-fixed_paths key dir es ps rest)

not_keys : All (λ path. (name : String) → path ≢ key_dir <> name) fixed_paths
not_keys = (
  λ o. starts_ne "/p" "laybook" "/s" "sh/keys/" o refl (ne_of_test _ _ refl),
  (
    λ o. starts_ne "/d" "eps" "/s" "sh/keys/" o refl (ne_of_test _ _ refl),
    (
      λ o. starts_ne "/c" "onfig" "/s" "sh/keys/" o refl (ne_of_test _ _ refl),
      (
        λ o. starts_ne "/i" "nventory/hosts.yaml" "/s" "sh/keys/" o refl (ne_of_test _ _ refl),
        (λ o. starts_ne "/ssh/kn" "own_hosts" "/ssh/ke" "ys/" o refl (ne_of_test _ _ refl), tt),
      ),
    ),
  ),
)

not_group_vars : All (λ path. (name : String) → path ≢ group_vars_dir <> name) fixed_paths
not_group_vars = (
  λ o. starts_ne "/p" "laybook" "/i" "nventory/group_vars/" o refl (ne_of_test _ _ refl),
  (
    λ o. starts_ne "/d" "eps" "/i" "nventory/group_vars/" o refl (ne_of_test _ _ refl),
    (
      λ o. starts_ne "/c" "onfig" "/i" "nventory/group_vars/" o refl (ne_of_test _ _ refl),
      (
        λ o.
            starts_ne "/inventory/h" "osts.yaml" "/inventory/g" "roup_vars/" o refl
              (ne_of_test _ _ refl),
        (
          λ o.
              starts_ne "/s" "sh/known_hosts" "/i" "nventory/group_vars/" o refl
                (ne_of_test _ _ refl),
          tt,
        ),
      ),
    ),
  ),
)

not_host_vars : All (λ path. (name : String) → path ≢ host_vars_dir <> name) fixed_paths
not_host_vars = (
  λ o. starts_ne "/p" "laybook" "/i" "nventory/host_vars/" o refl (ne_of_test _ _ refl),
  (
    λ o. starts_ne "/d" "eps" "/i" "nventory/host_vars/" o refl (ne_of_test _ _ refl),
    (
      λ o. starts_ne "/c" "onfig" "/i" "nventory/host_vars/" o refl (ne_of_test _ _ refl),
      (
        λ o.
            starts_ne "/inventory/hosts" ".yaml" "/inventory/host_" "vars/" o refl
              (ne_of_test _ _ refl),
        (
          λ o.
              starts_ne "/s" "sh/known_hosts" "/i" "nventory/host_vars/" o refl
                (ne_of_test _ _ refl),
          tt,
        ),
      ),
    ),
  ),
)

-- the paths of the mounts, in order
abbrev pub mount_paths : List VolumeMount → List String
mount_paths = map (λ m. m.mount_path)

mount_paths-add :
    (ms : List VolumeMount) (m : VolumeMount)
    → mount_paths (ms ++ (m ∷ [])) ≡ mount_paths ms ++ (m.mount_path ∷ [])
mount_paths-add [] m = refl
mount_paths-add (n ∷ ms) m = ap (λ l. n.mount_path ∷ l) (mount_paths-add ms m)

mount_paths-add_each :
    (body : OwnerOwnedWithAnsibleNamePair → Draft → Draft)
    (key : OwnerOwnedWithAnsibleNamePair → String) (dir : String)
    → ((e : OwnerOwnedWithAnsibleNamePair) (d : Draft)
        → mount_paths (body e d).runner.volume_mounts
          ≡ mount_paths d.runner.volume_mounts ++ ((dir <> key e) ∷ []))
    → (es : List OwnerOwnedWithAnsibleNamePair) (d : Draft)
    → mount_paths (add_each body es d).runner.volume_mounts
      ≡ mount_paths d.runner.volume_mounts ++ paths_in key dir es
unfolding add_each
mount_paths-add_each body key dir h [] d = sym (append-nil _)
mount_paths-add_each body key dir h (e ∷ es) d =
    mount_paths-add_each body key dir h es (body e d)
    ∙ ap (λ l. l ++ paths_in key dir es) (h e d)
    ∙ list_append_assoc (mount_paths d.runner.volume_mounts) ((dir <> key e) ∷ [])
        (paths_in key dir es)

mount_paths-add_key :
    (e : OwnerOwnedWithAnsibleNamePair) (d : Draft)
    → mount_paths (add_key e d).runner.volume_mounts
      ≡ mount_paths d.runner.volume_mounts ++ ((key_dir <> e.owner) ∷ [])
unfolding add_key build_read_only_volume_mount
mount_paths-add_key e d = mount_paths-add d.runner.volume_mounts _

mount_paths-add_group_vars :
    (e : OwnerOwnedWithAnsibleNamePair) (d : Draft)
    → mount_paths (add_group_vars e d).runner.volume_mounts
      ≡ mount_paths d.runner.volume_mounts ++ ((group_vars_dir <> e.owner_ansible_name) ∷ [])
unfolding add_group_vars build_read_only_volume_mount
mount_paths-add_group_vars e d = mount_paths-add d.runner.volume_mounts _

mount_paths-add_host_vars :
    (e : OwnerOwnedWithAnsibleNamePair) (d : Draft)
    → mount_paths (add_host_vars e d).runner.volume_mounts
      ≡ mount_paths d.runner.volume_mounts ++ ((host_vars_dir <> e.owner_ansible_name) ∷ [])
unfolding add_host_vars build_read_only_volume_mount
mount_paths-add_host_vars e d = mount_paths-add d.runner.volume_mounts _

module _ (i : CronJobInput) where
  abbrev key_paths : List String
  key_paths = paths_in (λ e. e.owner) key_dir i.key_secrets

  abbrev group_paths : List String
  group_paths = paths_in (λ e. e.owner_ansible_name) group_vars_dir i.group_vars_entries

  abbrev host_paths : List String
  host_paths = paths_in (λ e. e.owner_ansible_name) host_vars_dir i.host_vars_entries

  mount_paths-draft :
      mount_paths (draft i).runner.volume_mounts
      ≡ ((fixed_paths ++ key_paths) ++ group_paths) ++ host_paths
  unfolding draft first_draft runner_container add_env add_runtime_config add_inventory
      add_known_hosts build_read_only_volume_mount
  mount_paths-draft =
      mount_paths-add_each add_host_vars (λ e. e.owner_ansible_name) host_vars_dir
        mount_paths-add_host_vars i.host_vars_entries _
      ∙ ap (λ l. l ++ host_paths)
          (mount_paths-add_each add_group_vars (λ e. e.owner_ansible_name) group_vars_dir
              mount_paths-add_group_vars i.group_vars_entries _
            ∙ ap (λ l. l ++ group_paths)
                (mount_paths-add_each add_key (λ e. e.owner) key_dir mount_paths-add_key
                  i.key_secrets _))

  -- Where no two keys have an owner of the same name, no two groups the same Ansible name and no two
  -- hosts the same Ansible name, no two mounts of the runner have the same path.
  pub Distinct-mount_paths :
      Distinct (owners i.key_secrets)
      → Distinct (ansible_names i.group_vars_entries)
      → Distinct (ansible_names i.host_vars_entries)
      → Distinct (mount_paths (draft i).runner.volume_mounts)
  Distinct-mount_paths keys groups hosts = rw mount_paths-draft (
      Distinct-append ((fixed_paths ++ key_paths) ++ group_paths) host_paths
        (Distinct-append (fixed_paths ++ key_paths) group_paths
          (Distinct-append fixed_paths key_paths Distinct-fixed_paths
            (Distinct-paths_in (λ e. e.owner) key_dir i.key_secrets keys)
            (Apart-fixed_paths _ key_dir i.key_secrets fixed_paths not_keys))
          (Distinct-paths_in _ group_vars_dir i.group_vars_entries groups)
          (Apart-both fixed_paths key_paths group_paths
            (Apart-fixed_paths _ group_vars_dir i.group_vars_entries fixed_paths not_group_vars)
            (Apart-paths_in _ _ key_dir group_vars_dir i.key_secrets i.group_vars_entries (λ a b.
              starts_ne_both "/s" "sh/keys/" a "/i" "nventory/group_vars/" b refl
                (ne_of_test _ _ refl)))))
        (Distinct-paths_in _ host_vars_dir i.host_vars_entries hosts)
        (Apart-both (fixed_paths ++ key_paths) group_paths host_paths
          (Apart-both fixed_paths key_paths host_paths
            (Apart-fixed_paths _ host_vars_dir i.host_vars_entries fixed_paths not_host_vars)
            (Apart-paths_in _ _ key_dir host_vars_dir i.key_secrets i.host_vars_entries (λ a b.
              starts_ne_both "/s" "sh/keys/" a "/i" "nventory/host_vars/" b refl
                (ne_of_test _ _ refl))))
          (Apart-paths_in _ _ group_vars_dir host_vars_dir i.group_vars_entries i.host_vars_entries
            (λ a b.
              starts_ne_both "/inventory/g" "roup_vars/" a "/inventory/h" "ost_vars/" b refl
                (ne_of_test _ _ refl)))))
