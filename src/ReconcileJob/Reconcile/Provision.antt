-- ===== src/ReconcileJob/Reconcile/Provision.antt =====
-- The config maps that a reconcile without an error leaves for the runner.
use ansible_operator.Base.{String, ◌<>◌, ◌≡◌, ◌≢◌, refl, ap, sym, Result, ok, Exec, ne_of_test}
use text.Mathlib.TextLemmas.{append_cancel_left}
use ansible_operator.Base.Post.{
  Keeps, Post, Post-elim, Post-weaken, Post-trying, Post-both, Post-given, keeps_rules,
}
use mathlib.Core.Path.{subst}
use ansible_operator.Base.Maps.{Map}
use ansible_operator.Api.{ObjectKey, AnsibleReconcileJob, condition_true}
use ansible_operator.Kube.{ConfigMap, Platform, Session, ReconcileResult}
use ansible_operator.Kube.Laws.{StatusLaws, ConfigMapLaws, FrameLaws}
use ansible_operator.ReconcileJob.ConfigMaps.Laws.{map_key, HasData}
use ansible_operator.ReconcileJob.RuntimeConfig.{ensure_runtime_config_map, job_config_name_suffix}
use ansible_operator.ReconcileJob.KnownHosts.{
  ensure_known_hosts_secret_exists, known_hosts_config_map_name_suffix,
}
use ansible_operator.ReconcileJob.Inventory.Ensure.{
  ensure_inventory_configmap, inventory_config_map_name_suffix,
}
use ansible_operator.ReconcileJob.CronJobs.Ensure.{ensure_cronjob_with_mounts}
use ansible_operator.ReconcileJob.Status.{default_all_statuses_to_unknown}
use ansible_operator.ReconcileJob.Status.Laws.{SameSpec, default_all_statuses_to_unknown_lem}
use ansible_operator.ReconcileJob.Reconcile.{step, with_job, ensure_all, reconcile_job}
use ansible_operator.ReconcileJob.Reconcile.Keeping.{
  Same, Answers, ensure_inventory_configmap-Same, ensure_known_hosts-Same,
  ensure_runtime_config_map-Same, ensure_configmap_with_data_frame,
  ensure_cronjob_with_mounts_frame, set_condition_frame, update_status_conditions_frame, at_err_lem,
  pass, conclude_lem,
}
use ansible_operator.ReconcileJob.Reconcile.Provided.{
  IsInventory, IsKnownHosts, IsRuntimeConfig, Provides, ProvidesInventory, ProvidesKnownHosts,
  ProvidesConfig, Provisioned, ensure_runtime_config_map-Provides, ensure_known_hosts-Provides,
  ensure_inventory_configmap-Provides,
}

module _ (P : Platform) (laws : ConfigMapLaws P) (frame : FrameLaws P)
    (owner : AnsibleReconcileJob) where
  abbrev JobSession : Type 0
  JobSession = Session P AnsibleReconcileJob

  abbrev key_of : String → ObjectKey
  key_of suffix = map_key (owner.meta.name <> suffix) owner.meta

  key_of_ne : (a b : String) → a ≢ b → key_of a ≢ key_of b
  key_of_ne a b ne e =
      ne (append_cancel_left owner.meta.name a b (ap (λ (k : ObjectKey). k.name) e))

  inventory_ne_known_hosts :
      key_of inventory_config_map_name_suffix ≢ key_of known_hosts_config_map_name_suffix
  inventory_ne_known_hosts = key_of_ne _ _ (ne_of_test _ _ refl)

  inventory_ne_config : key_of inventory_config_map_name_suffix ≢ key_of job_config_name_suffix
  inventory_ne_config = key_of_ne _ _ (ne_of_test _ _ refl)

  known_hosts_ne_config : key_of known_hosts_config_map_name_suffix ≢ key_of job_config_name_suffix
  known_hosts_ne_config = key_of_ne _ _ (ne_of_test _ _ refl)

  -- A step that keeps the answer for a config map keeps what the config map provides.
  Keeps-Provides :
      {A : Type 0} (Wanted : AnsibleReconcileJob → Map String → Type 0) (suffix : String)
      (m : Exec (JobSession) A)
      → ((r : Result ConfigMap) → Keeps (Answers P laws frame (key_of suffix) r) m)
      → Keeps (λ t. Provides P Wanted suffix owner t.server) m
  Keeps-Provides Wanted suffix m keeps = record {
    at = λ s (entries, wanted, has).
        (entries, wanted, subst (HasData entries) (sym ((keeps _).at s refl)) has);
  }

  -- One step of the reconcile: what `old` says of the server stays, and `new` comes to hold.
  provide-then :
      (old new : P.State → Type 0) (text : String)
      (m : AnsibleReconcileJob → Exec (JobSession) (Unit {0}))
      (rest : Exec (JobSession) ReconcileResult) (Q : ReconcileResult → JobSession → Type 0)
      (s : JobSession)
      → Keeps (Same P owner) (m owner)
      → Keeps (λ t. old t.server) (m owner)
      → ((t : JobSession) → Post (λ _ u. new u.server) (m owner) t)
      → s.object ≡ owner
      → old s.server
      → ((t : JobSession) → t.object ≡ owner → old t.server → new t.server → Post Q rest t)
      → Post Q (step P text (with_job P m) rest) s
  provide-then old new text m rest Q s same keeps gives here i k =
      Post-trying (with_job P m) _ _ s
        (Post-given (with_job P m) s (m owner) (rw here refl) (
          Post-weaken (m owner) s (λ _ t (j, (o, i')). k t o i' j)
            (Post-both {R = λ t. (t.object ≡ owner) × old t.server} (m owner) s (gives s)
              (same.at s here, keeps.at s i))))
        (λ e. at_err_lem P _ _ _)

  known_hosts_frame :
      (k : ObjectKey) (r : Result ConfigMap)
      → k ≢ key_of known_hosts_config_map_name_suffix
      → Keeps (Answers P laws frame k r) (ensure_known_hosts_secret_exists P owner)
  unfolding ensure_known_hosts_secret_exists
  known_hosts_frame k r ne = search (keeps_rules, ensure_configmap_with_data_frame)

  runtime_config_frame :
      (k : ObjectKey) (r : Result ConfigMap)
      → k ≢ key_of job_config_name_suffix
      → Keeps (Answers P laws frame k r) (ensure_runtime_config_map P owner)
  unfolding ensure_runtime_config_map
  runtime_config_frame k r ne = search (keeps_rules, ensure_configmap_with_data_frame)

  -- A step that keeps every answer keeps all that is provided.
  Keeps-Provisioned :
      {A : Type 0} (m : Exec (JobSession) A)
      → ((k : ObjectKey) (r : Result ConfigMap) → Keeps (Answers P laws frame k r) m)
      → Keeps (λ t. Provisioned P owner t.server) m
  Keeps-Provisioned m keeps = record {
    at = λ s (inventory, known_hosts, config). (
      (Keeps-Provides (IsInventory P) _ m (λ r. keeps _ r)).at s inventory,
      (Keeps-Provides (IsKnownHosts P) _ m (λ r. keeps _ r)).at s known_hosts,
      (Keeps-Provides (IsRuntimeConfig P) _ m (λ r. keeps _ r)).at s config,
    );
  }

  ensure_all_lem :
      (s : JobSession)
      → s.object ≡ owner
      → Post (λ _ t. Provisioned P owner t.server) (ensure_all P) s
  unfolding ensure_all
  ensure_all_lem s here =
      provide-then (λ _. Unit) (ProvidesInventory P owner) _ (ensure_inventory_configmap P) _ _ s
        (ensure_inventory_configmap-Same P owner owner) (record { at = λ _ _. tt })
        (ensure_inventory_configmap-Provides P laws owner) here tt
        λ t t_here _ inventory.
          provide-then (ProvidesInventory P owner) (ProvidesKnownHosts P owner) _
            (ensure_known_hosts_secret_exists P) _ _ t (ensure_known_hosts-Same P owner owner)
            (Keeps-Provides (IsInventory P) _ _
              (λ r. known_hosts_frame _ r inventory_ne_known_hosts))
            (ensure_known_hosts-Provides P laws owner) t_here inventory
            λ u u_here inventory' known_hosts.
              provide-then (λ v. ProvidesInventory P owner v × ProvidesKnownHosts P owner v)
                (ProvidesConfig P owner) _ (ensure_runtime_config_map P) _ _ u
                (ensure_runtime_config_map-Same P owner owner)
                (record {
                  at = λ w (i, k). (
                    (Keeps-Provides (IsInventory P) _ _
                          (λ r. runtime_config_frame _ r inventory_ne_config)).at
                        w i,
                    (Keeps-Provides (IsKnownHosts P) _ _
                          (λ r. runtime_config_frame _ r known_hosts_ne_config)).at
                        w k,
                  );
                })
                (ensure_runtime_config_map-Provides P laws owner) u_here (inventory', known_hosts)
                λ v v_here (inventory'', known_hosts') config.
                  pass P (λ w. Provisioned P owner w.server) _
                    (with_job P (ensure_cronjob_with_mounts P)) _ v
                    (Keeps-Provisioned _ (λ k r. record {
                      at = λ w. (ensure_cronjob_with_mounts_frame P laws frame k r w.object).at w;
                    }))
                    (inventory'', known_hosts', config)
                    λ w.
                      conclude_lem P (λ x. Provisioned P owner x.server) w
                        (Keeps-Provisioned _ (update_status_conditions_frame P laws frame))
                        (Keeps-Provisioned _
                          (λ k r. set_condition_frame P laws frame k r "Ready" condition_true _ _))

module _ (P : Platform) (laws : ConfigMapLaws P) (frame : FrameLaws P) where
  Provisioned-SameSpec :
      (j j' : AnsibleReconcileJob) (s : P.State)
      → SameSpec j j'
      → Provisioned P j' s
      → Provisioned P j s
  Provisioned-SameSpec j j' s (m, n) p = rw (sym m, sym n) p

  -- Under the laws of status updates and of config maps, and if a write changes no other config map:
  -- where the reconcile of a job returns without an error, the server has, in the end, the three config
  -- maps of the job, each under the job's name with its own suffix, and they hold: the inventory of
  -- the hosts and groups that the server listed for the job's namespace, the known hosts of the hosts
  -- listed there, and the configuration that the job's playbook asks for; each up to `maps.Equal`.
  pub reconcile_job-Provisioned :
      (statuses : StatusLaws P) (s : Session P AnsibleReconcileJob) (r : ReconcileResult)
      → (reconcile_job P s).0 ≡ ok r
      → Provisioned P s.object (reconcile_job P s).1.server
  unfolding reconcile_job
  reconcile_job-Provisioned statuses s r =
      Post-elim (λ _ t. Provisioned P s.object t.server) (reconcile_job P) r s
        (Post-trying (default_all_statuses_to_unknown P) _ _ s
          (Post-weaken _ s
            (λ _ t same.
              Post-weaken (ensure_all P) t
                (λ _ u p. Provisioned-SameSpec s.object t.object u.server same p)
                (ensure_all_lem P laws frame t.object t refl))
            (default_all_statuses_to_unknown_lem P statuses s))
          (λ e. at_err_lem P _ _ _))
