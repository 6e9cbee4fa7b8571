-- ===== src/ReconcileJob/CronJobs/Names.antt =====
-- The names of the volumes of the runner's pod, which Kubernetes wants to differ.
use text.Mathlib.TextLemmas.{append_assoc, append_inj, length-append, append_cancel_right}
use Prim.Native.String.{count}
use mathlib.Core.List.{append-nil, append_assoc as list_append_assoc}
use ansible_operator.Base.{
  String, ◌<>◌, ◌≡◌, ◌≢◌, refl, sym, ap, ◌∙◌, List, [], ◌∷◌, ◌++◌, map, All, All-append, arith,
  ne_of_test,
}
use ansible_operator.Kube.{Volume}
use ansible_operator.ReconcileJob.CronJobs.Volumes.{
  host_mount_suffix, group_mount_suffix, ssh_key_mount_suffix, build_volume_for_secret,
  build_volume_for_config_map,
}
use ansible_operator.ReconcileJob.CronJobs.Construct.{
  OwnerOwnedWithAnsibleNamePair, CronJobInput, Draft, first_draft, add_env, add_runtime_config,
  add_inventory, add_known_hosts, add_key, add_group_vars, add_host_vars, add_each, draft,
  construct_cronjob_with_mounts,
}

-- No two of the names are the same.
abbrev pub Distinct : List String → Type 0
Distinct [] = Unit
Distinct (x ∷ xs) = All (λ y. x ≢ y) xs × Distinct xs

abbrev pub Apart : List String → List String → Type 0
Apart xs ys = All (λ x. All (λ y. x ≢ y) ys) xs

pub Distinct-append :
    (xs ys : List String) → Distinct xs → Distinct ys → Apart xs ys → Distinct (xs ++ ys)
Distinct-append [] ys _ d _ = d
Distinct-append (x ∷ xs) ys (p, h) d (a, apart) =
    (All-append (λ y. x ≢ y) xs ys p a, Distinct-append xs ys h d apart)

pub Apart-both : (xs ys zs : List String) → Apart xs zs → Apart ys zs → Apart (xs ++ ys) zs
Apart-both xs ys zs = All-append (λ x. All (λ y. x ≢ y) zs) xs ys

-- Texts that end in different ways differ.
ends_ne : (a b x y : String) → count x ≡ count y → x ≢ y → a <> x ≢ b <> y
ends_ne a b x y same ne e =
    ne (append_inj e (omega (arith, ap count e, length-append a x, length-append b y, same))).1

-- the names for a list of owners
abbrev pub names_with : String → List OwnerOwnedWithAnsibleNamePair → List String
names_with suffix = map (λ e. e.owner <> suffix)

abbrev pub owners : List OwnerOwnedWithAnsibleNamePair → List String
owners = map (λ e. e.owner)

names_with_ne :
    (suffix name : String) (es : List OwnerOwnedWithAnsibleNamePair)
    → All (λ y. name ≢ y) (owners es)
    → All (λ y. name <> suffix ≢ y) (names_with suffix es)
names_with_ne suffix name [] _ = tt
names_with_ne suffix name (e ∷ es) (ne, rest) =
    (λ same. ne (append_cancel_right name e.owner suffix same), names_with_ne suffix name es rest)

Distinct-names_with :
    (suffix : String) (es : List OwnerOwnedWithAnsibleNamePair)
    → Distinct (owners es)
    → Distinct (names_with suffix es)
Distinct-names_with suffix [] _ = tt
Distinct-names_with suffix (e ∷ es) (p, d) =
    (names_with_ne suffix e.owner es p, Distinct-names_with suffix es d)

-- A name that differs from all that end in `suffix`.
ne_names_with :
    (name suffix : String) (es : List OwnerOwnedWithAnsibleNamePair)
    → ((owner : String) → name ≢ owner <> suffix)
    → All (λ y. name ≢ y) (names_with suffix es)
ne_names_with name suffix [] ne = tt
ne_names_with name suffix (e ∷ es) ne = (ne e.owner, ne_names_with name suffix es ne)

Apart-names_with :
    (suffix suffix' : String) (es fs : List OwnerOwnedWithAnsibleNamePair)
    → ((a b : String) → a <> suffix ≢ b <> suffix')
    → Apart (names_with suffix es) (names_with suffix' fs)
Apart-names_with suffix suffix' [] fs ne = tt
Apart-names_with suffix suffix' (e ∷ es) fs ne = (
  ne_names_with (e.owner <> suffix) suffix' fs (ne e.owner),
  Apart-names_with suffix suffix' es fs ne,
)

-- `name` against owners with a suffix, by the ends of both.
tail_ne : (a x b c y : String) → count x ≡ count y → x ≢ y → a <> x ≢ b <> (c <> y)
tail_ne a x b c y same ne e = ends_ne a (b <> c) x y same ne (e ∙ sym (append_assoc b c y))

abbrev fixed_names : List String
fixed_names = "playbooks" ∷ "deps" ∷ "runtimeconfig" ∷ "inventory" ∷ "knownhosts" ∷ []

Apart-fixed_names :
    (stem : String) (es : List OwnerOwnedWithAnsibleNamePair)
    → Apart fixed_names (names_with (stem <> "t") es)
Apart-fixed_names stem es = (
  ne_names_with _ _ es (λ o. tail_ne "playbook" "s" o stem "t" refl (ne_of_test _ _ refl)),
  (
    ne_names_with _ _ es (λ o. tail_ne "dep" "s" o stem "t" refl (ne_of_test _ _ refl)),
    (
      ne_names_with _ _ es (λ o. tail_ne "runtimeconfi" "g" o stem "t" refl (ne_of_test _ _ refl)),
      (
        ne_names_with _ _ es (λ o. tail_ne "inventor" "y" o stem "t" refl (ne_of_test _ _ refl)),
        (
          ne_names_with _ _ es (λ o. tail_ne "knownhost" "s" o stem "t" refl (ne_of_test _ _ refl)),
          tt,
        ),
      ),
    ),
  ),
)

Distinct-fixed_names : Distinct fixed_names
Distinct-fixed_names = (
  (ne_of_test _ _ refl, (ne_of_test _ _ refl, (ne_of_test _ _ refl, (ne_of_test _ _ refl, tt)))),
  (
    (ne_of_test _ _ refl, (ne_of_test _ _ refl, (ne_of_test _ _ refl, tt))),
    ((ne_of_test _ _ refl, (ne_of_test _ _ refl, tt)), ((ne_of_test _ _ refl, tt), (tt, tt))),
  ),
)

-- the names of the volumes, in order
abbrev pub volume_names : List Volume → List String
volume_names = map (λ v. v.name)

volume_names-add :
    (vs : List Volume) (v : Volume)
    → volume_names (vs ++ (v ∷ [])) ≡ volume_names vs ++ (v.name ∷ [])
volume_names-add [] v = refl
volume_names-add (u ∷ vs) v = ap (λ l. u.name ∷ l) (volume_names-add vs v)

volume_names-add_each :
    (body : OwnerOwnedWithAnsibleNamePair → Draft → Draft) (suffix : String)
    → ((e : OwnerOwnedWithAnsibleNamePair) (d : Draft)
        → volume_names (body e d).volumes ≡ volume_names d.volumes ++ ((e.owner <> suffix) ∷ []))
    → (es : List OwnerOwnedWithAnsibleNamePair) (d : Draft)
    → volume_names (add_each body es d).volumes ≡ volume_names d.volumes ++ names_with suffix es
unfolding add_each
volume_names-add_each body suffix h [] d = sym (append-nil _)
volume_names-add_each body suffix h (e ∷ es) d =
    volume_names-add_each body suffix h es (body e d)
    ∙ ap (λ l. l ++ names_with suffix es) (h e d)
    ∙ list_append_assoc (volume_names d.volumes) ((e.owner <> suffix) ∷ []) (names_with suffix es)

volume_names-add_key :
    (e : OwnerOwnedWithAnsibleNamePair) (d : Draft)
    → volume_names (add_key e d).volumes
      ≡ volume_names d.volumes ++ ((e.owner <> "-key-mount") ∷ [])
unfolding add_key build_volume_for_secret
volume_names-add_key e d = volume_names-add d.volumes _

volume_names-add_group_vars :
    (e : OwnerOwnedWithAnsibleNamePair) (d : Draft)
    → volume_names (add_group_vars e d).volumes
      ≡ volume_names d.volumes ++ ((e.owner <> "-group-mount") ∷ [])
unfolding add_group_vars build_volume_for_config_map
volume_names-add_group_vars e d = volume_names-add d.volumes _

volume_names-add_host_vars :
    (e : OwnerOwnedWithAnsibleNamePair) (d : Draft)
    → volume_names (add_host_vars e d).volumes
      ≡ volume_names d.volumes ++ ((e.owner <> "-host-mount") ∷ [])
unfolding add_host_vars build_volume_for_config_map
volume_names-add_host_vars e d = volume_names-add d.volumes _

module _ (i : CronJobInput) where
  abbrev keys_named : List String
  keys_named = fixed_names ++ names_with ssh_key_mount_suffix i.key_secrets

  abbrev groups_named : List String
  groups_named = keys_named ++ names_with group_mount_suffix i.group_vars_entries

  volume_names-draft :
      volume_names (draft i).volumes
      ≡ groups_named ++ names_with host_mount_suffix i.host_vars_entries
  unfolding draft first_draft add_env add_runtime_config add_inventory add_known_hosts
      build_volume_for_config_map
  volume_names-draft =
      volume_names-add_each add_host_vars host_mount_suffix volume_names-add_host_vars
        i.host_vars_entries _
      ∙ ap (λ l. l ++ names_with host_mount_suffix i.host_vars_entries)
          (volume_names-add_each add_group_vars group_mount_suffix volume_names-add_group_vars
              i.group_vars_entries _
            ∙ ap (λ l. l ++ names_with group_mount_suffix i.group_vars_entries)
                (volume_names-add_each add_key ssh_key_mount_suffix volume_names-add_key
                  i.key_secrets _))

  keys_ne_groups : (a b : String) → a <> ssh_key_mount_suffix ≢ b <> group_mount_suffix
  keys_ne_groups a b = tail_ne a "-key-mount" b "-g" "roup-mount" refl (ne_of_test _ _ refl)

  keys_ne_hosts : (a b : String) → a <> ssh_key_mount_suffix ≢ b <> host_mount_suffix
  keys_ne_hosts a b = tail_ne a "-key-mount" b "-" "host-mount" refl (ne_of_test _ _ refl)

  groups_ne_hosts : (a b : String) → a <> group_mount_suffix ≢ b <> host_mount_suffix
  groups_ne_hosts a b e =
      tail_ne b "-host-mount" a "-" "group-mount" refl (ne_of_test _ _ refl) (sym e)

  -- Where no two keys, no two groups and no two hosts have an owner of the same name, no two volumes of the
  -- pod of the cron job have the same name.
  pub construct_cronjob_with_mounts-Distinct :
      Distinct (owners i.key_secrets)
      → Distinct (owners i.group_vars_entries)
      → Distinct (owners i.host_vars_entries)
      → Distinct (volume_names (construct_cronjob_with_mounts i).pod.volumes)
  unfolding construct_cronjob_with_mounts
  construct_cronjob_with_mounts-Distinct keys groups hosts =
      let key_names = names_with ssh_key_mount_suffix i.key_secrets in
      let group_names = names_with group_mount_suffix i.group_vars_entries in
      let host_names = names_with host_mount_suffix i.host_vars_entries in
      rw volume_names-draft (
        Distinct-append groups_named host_names
          (Distinct-append keys_named group_names
            (Distinct-append fixed_names key_names Distinct-fixed_names
              (Distinct-names_with ssh_key_mount_suffix i.key_secrets keys)
              (Apart-fixed_names "-key-moun" i.key_secrets))
            (Distinct-names_with group_mount_suffix i.group_vars_entries groups)
            (Apart-both fixed_names key_names group_names
              (Apart-fixed_names "-group-moun" i.group_vars_entries)
              (Apart-names_with ssh_key_mount_suffix group_mount_suffix i.key_secrets
                i.group_vars_entries keys_ne_groups)))
          (Distinct-names_with host_mount_suffix i.host_vars_entries hosts)
          (Apart-both keys_named group_names host_names
            (Apart-both fixed_names key_names host_names
              (Apart-fixed_names "-host-moun" i.host_vars_entries)
              (Apart-names_with ssh_key_mount_suffix host_mount_suffix i.key_secrets
                i.host_vars_entries keys_ne_hosts))
            (Apart-names_with group_mount_suffix host_mount_suffix i.group_vars_entries
              i.host_vars_entries groups_ne_hosts)))
