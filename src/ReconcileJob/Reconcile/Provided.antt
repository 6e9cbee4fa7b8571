-- ===== src/ReconcileJob/Reconcile/Provided.antt =====
-- What the config maps for the runner are to hold, and the step that makes each.
use ansible_operator.Base.{String, ◌<>◌, ◌≡◌, refl, List, [], ◌∷◌, ok, wrap, lift, with_error}
use ansible_operator.Base.Post.{
  Post, Post-weaken, Post-with_error, Post-then, Post-pure, Post-outcome, Post-lift,
}
use ansible_operator.Base.Maps.{Map}
use ansible_operator.Base.Texts.{join}
use ansible_operator.Api.{
  ObjectMeta, ObjectKey, AnsibleHost, AnsibleGroup, AnsiblePlaybook, AnsibleReconcileJob,
}
use ansible_operator.Kube.{Platform, Session, read}
use ansible_operator.Kube.Laws.{ConfigMapLaws}
use ansible_operator.Kube.Steps.{Post-read}
use ansible_operator.ReconcileJob.ConfigMaps.{ensure_configmap_with_data}
use ansible_operator.ReconcileJob.ConfigMaps.Laws.{
  map_key, HasData, ensure_configmap_with_data-HasData,
}
use ansible_operator.ReconcileJob.RuntimeConfig.{
  runtime_config, ensure_runtime_config_map, job_config_name_suffix,
}
use ansible_operator.ReconcileJob.KnownHosts.{
  ensure_known_hosts_secret_exists, get_known_hosts_for_reconcile_job, known_hosts_config_map_key,
  known_hosts_config_map_name_suffix,
}
use ansible_operator.ReconcileJob.Inventory.Content.{hosts_by_name, groups_by_name}
use ansible_operator.ReconcileJob.Inventory.Ensure.{
  construct_inventory_content, ensure_inventory_configmap, get_ansible_hosts_in_namespace,
  get_ansible_groups_in_namespace, inventory_config_map_key, inventory_config_map_name_suffix,
}

module _ (P : Platform) where
  -- `entries` are the inventory of the hosts and groups of the namespace.
  abbrev pub IsInventory : AnsibleReconcileJob → Map String → Type 0
  IsInventory job entries =
      (u v : P.State) × (hosts : List AnsibleHost) × (groups : List AnsibleGroup) × (text : String)
      × (P.list_hosts job.meta.namespace u ≡ ok hosts)
      × (P.list_groups job.meta.namespace v ≡ ok groups)
      × (construct_inventory_content (hosts_by_name hosts []) (groups_by_name groups []) ≡ ok text)
      × (entries ≡ (inventory_config_map_key, text) ∷ [])

  -- `entries` are the known_hosts file of the hosts of the namespace.
  abbrev pub IsKnownHosts : AnsibleReconcileJob → Map String → Type 0
  IsKnownHosts job entries =
      (u v : P.State) × (hosts : List AnsibleHost) × (texts : List String) × (P.list_hosts
          job.meta.namespace u
        ≡ ok hosts)
      × (get_known_hosts_for_reconcile_job P hosts v ≡ ok texts)
      × (entries ≡ (known_hosts_config_map_key, join "\n" texts) ∷ [])

  abbrev playbook_key : AnsibleReconcileJob → ObjectKey
  playbook_key job = record { namespace = job.meta.namespace; name = job.spec.playbook_ref.name }

  -- `entries` are the configuration that the job's playbook asks for.
  abbrev pub IsRuntimeConfig : AnsibleReconcileJob → Map String → Type 0
  IsRuntimeConfig job entries =
      (u : P.State) × (playbook : AnsiblePlaybook) × (P.get_playbook (playbook_key job) u
        ≡ ok playbook)
      × (runtime_config playbook ≡ ok entries)

  -- The server has a config map under the job's name and a suffix, with data of this kind.
  abbrev pub Provides :
      (AnsibleReconcileJob → Map String → Type 0) → String → AnsibleReconcileJob → P.State → Type 0
  Provides Wanted suffix job s =
      (entries : Map String) × Wanted job entries
      × HasData entries (P.get_config_map (map_key (job.meta.name <> suffix) job.meta) s)

  abbrev pub ProvidesInventory : AnsibleReconcileJob → P.State → Type 0
  ProvidesInventory = Provides IsInventory inventory_config_map_name_suffix

  abbrev pub ProvidesKnownHosts : AnsibleReconcileJob → P.State → Type 0
  ProvidesKnownHosts = Provides IsKnownHosts known_hosts_config_map_name_suffix

  abbrev pub ProvidesConfig : AnsibleReconcileJob → P.State → Type 0
  ProvidesConfig = Provides IsRuntimeConfig job_config_name_suffix

  abbrev pub Provisioned : AnsibleReconcileJob → P.State → Type 0
  Provisioned job s = ProvidesInventory job s × ProvidesKnownHosts job s × ProvidesConfig job s

  module _ (laws : ConfigMapLaws P) where
    abbrev JobSession : Type 0
    JobSession = Session P AnsibleReconcileJob

    HasData_lem :
        (name : String) (wanted : Map String) (job : ObjectMeta) (s : JobSession)
        → Post
            (λ _ t. HasData wanted (P.get_config_map (map_key name job) t.server))
            (ensure_configmap_with_data P name wanted job)
            s
    HasData_lem name wanted job s =
        Post-outcome (ensure_configmap_with_data P name wanted job) s
          (ensure_configmap_with_data-HasData P name wanted job laws s)

    pub ensure_runtime_config_map-Provides :
        (job : AnsibleReconcileJob) (s : JobSession)
        → Post (λ _ t. ProvidesConfig job t.server) (ensure_runtime_config_map P job) s
    unfolding ensure_runtime_config_map
    ensure_runtime_config_map-Provides job s =
        Post-then (with_error _ (read (P.get_playbook (playbook_key job)))) _ s
          (Post-with_error (wrap "unable to fetch matching playbook") _ s
            (Post-read (P.get_playbook (playbook_key job)) s))
          λ playbook t got.
            Post-then (lift (runtime_config playbook)) _ t (Post-lift (runtime_config playbook) t)
              λ entries u computed.
                Post-weaken _ u (λ _ v has. (entries, (s.server, playbook, got.0, computed.0), has))
                  (Post-with_error
                    (wrap
                      ("error ensuring configmap " <> (job.meta.name <> job_config_name_suffix)))
                    _ u (HasData_lem _ entries job.meta u))

    pub ensure_known_hosts-Provides :
        (job : AnsibleReconcileJob) (s : JobSession)
        → Post (λ _ t. ProvidesKnownHosts job t.server) (ensure_known_hosts_secret_exists P job) s
    unfolding ensure_known_hosts_secret_exists
    ensure_known_hosts-Provides job s =
        Post-then _ _ s (Post-with_error _ _ s (Post-read (P.list_hosts job.meta.namespace) s))
          λ hosts t got.
            Post-then (with_error _ (read (get_known_hosts_for_reconcile_job P hosts))) _ t
              (Post-with_error _ _ t (Post-read (get_known_hosts_for_reconcile_job P hosts) t))
              λ texts u computed.
                Post-weaken _ u
                  (λ _ v has. (
                    (known_hosts_config_map_key, join "\n" texts) ∷ [],
                    (s.server, t.server, hosts, texts, got.0, computed.0, refl),
                    has,
                  ))
                  (Post-with_error (wrap "failed to ensure known hosts configmap") _ u
                    (HasData_lem _ ((known_hosts_config_map_key, join "\n" texts) ∷ []) job.meta u))

    listed_hosts :
        (namespace : String) (s : JobSession)
        → Post
            (λ m t.
              (hosts : List AnsibleHost) × (P.list_hosts namespace s.server ≡ ok hosts)
              × (m ≡ hosts_by_name hosts [])
              × (t ≡ s))
            (get_ansible_hosts_in_namespace P namespace)
            s
    unfolding get_ansible_hosts_in_namespace
    listed_hosts namespace s =
        Post-then _ _ s (Post-with_error _ _ s (Post-read (P.list_hosts namespace) s))
          λ hosts t got. Post-pure (hosts_by_name hosts []) t (hosts, got.0, refl, got.1)

    listed_groups :
        (namespace : String) (s : JobSession)
        → Post
            (λ m t.
              (groups : List AnsibleGroup) × (P.list_groups namespace s.server ≡ ok groups)
              × (m ≡ groups_by_name groups [])
              × (t ≡ s))
            (get_ansible_groups_in_namespace P namespace)
            s
    unfolding get_ansible_groups_in_namespace
    listed_groups namespace s =
        Post-then _ _ s (Post-with_error _ _ s (Post-read (P.list_groups namespace) s))
          λ groups t got. Post-pure (groups_by_name groups []) t (groups, got.0, refl, got.1)

    pub ensure_inventory_configmap-Provides :
        (job : AnsibleReconcileJob) (s : JobSession)
        → Post (λ _ t. ProvidesInventory job t.server) (ensure_inventory_configmap P job) s
    unfolding ensure_inventory_configmap
    ensure_inventory_configmap-Provides job s =
        Post-then _ _ s (Post-with_error _ _ s (listed_hosts job.meta.namespace s))
          λ hosts t (all_hosts, got, made, _).
            Post-then _ _ t (Post-with_error _ _ t (listed_groups job.meta.namespace t))
              λ groups u (all_groups, got', made', _).
                Post-then (with_error _ (lift (construct_inventory_content hosts groups))) _ u
                  (Post-with_error _ _ u (Post-lift (construct_inventory_content hosts groups) u))
                  λ text v computed.
                    Post-weaken _ v
                      (λ _ w has. (
                        (inventory_config_map_key, text) ∷ [],
                        (
                          s.server,
                          t.server,
                          all_hosts,
                          all_groups,
                          text,
                          got,
                          got',
                          rw (made, made') at computed.0,
                          refl,
                        ),
                        has,
                      ))
                      (Post-with_error (wrap "failed to ensure inventory configmap") _ v
                        (HasData_lem _ ((inventory_config_map_key, text) ∷ []) job.meta v))
