-- ===== src/ReconcileJob/Reconcile/Applied.antt =====
-- The one cron job that a reconcile without an error applies.
use ansible_operator.Base.{String, ◌≡◌, refl, ap, sym, ◌∙◌, List, ◌∷◌, ok, Exec}
use ansible_operator.Base.Post.{
  Keeps, Post, Post-elim, Post-weaken, Post-with_error, Post-then, Post-lift, Post-state,
  Post-trying, Post-given, Post-both,
}
use ansible_operator.Api.{ObjectMeta, AnsibleHost, AnsibleGroup, AnsibleReconcileJob}
use ansible_operator.Kube.{
  Platform, Session, CronJob, Request, apply_cron_job, ReconcileResult, send,
}
use ansible_operator.Kube.Laws.{StatusLaws}
use ansible_operator.Kube.Steps.{Post-read}
use ansible_operator.ReconcileJob.RuntimeConfig.{ensure_runtime_config_map}
use ansible_operator.ReconcileJob.KnownHosts.{ensure_known_hosts_secret_exists}
use ansible_operator.ReconcileJob.Inventory.Ensure.{ensure_inventory_configmap}
use ansible_operator.ReconcileJob.CronJobs.Construct.{construct_cronjob_with_mounts}
use ansible_operator.ReconcileJob.CronJobs.Ensure.{cronjob_input, ensure_cronjob_with_mounts}
use ansible_operator.ReconcileJob.Status.{default_all_statuses_to_unknown}
use ansible_operator.ReconcileJob.Status.Laws.{SameSpec, default_all_statuses_to_unknown_lem}
use ansible_operator.ReconcileJob.Reconcile.{step, with_job, conclude, ensure_all, reconcile_job}
use ansible_operator.ReconcileJob.Reconcile.Keeping.{
  Same, ensure_inventory_configmap-Same, ensure_known_hosts-Same, ensure_runtime_config_map-Same,
  at_err_lem, conclude_lem,
}
use ansible_operator.ReconcileJob.Reconcile.Quiet.{
  cron_requests, Sent, ensure_inventory_configmap-Sent, ensure_known_hosts-Sent,
  ensure_runtime_config_map-Sent, set_condition-Sent, update_status_conditions-Sent,
  default_all_statuses_to_unknown-Sent,
}

module _ (P : Platform) where
  abbrev drawn_up : AnsibleReconcileJob → List AnsibleHost → List AnsibleGroup → CronJob
  drawn_up job hosts groups = construct_cronjob_with_mounts (cronjob_input job hosts groups)

  -- `c` is the cron job of `job` for the hosts and groups that the server listed for its namespace,
  -- controlled by `job`.
  abbrev pub IsCronJob : AnsibleReconcileJob → CronJob → Type 0
  IsCronJob job c =
      (u v : P.State) × (hosts : List AnsibleHost) × (groups : List AnsibleGroup)
      × (meta : ObjectMeta) × (P.list_hosts job.meta.namespace u ≡ ok hosts)
      × (P.list_groups job.meta.namespace v ≡ ok groups)
      × (P.set_controller_reference "AnsibleReconcileJob" job.meta (drawn_up job hosts groups).meta
          ≡ ok meta)
      × (P.to_unstructured (record (drawn_up job hosts groups) { meta = meta }) ≡ ok c)

  -- After `before`, the one request about a cron job is to apply that of `job`.
  abbrev pub Applies : AnsibleReconcileJob → List Request → Session P AnsibleReconcileJob → Type 0
  Applies job before t =
      (c : CronJob) × IsCronJob job c × (cron_requests t.requests ≡ apply_cron_job c ∷ before)

  send_lem :
      (c : CronJob) (s : Session P AnsibleReconcileJob)
      → Post
          (λ _ t. t.requests ≡ apply_cron_job c ∷ s.requests)
          (send (apply_cron_job c) (P.apply_cron_job c))
          s
  send_lem c s =
      Post-state (λ t. t.requests ≡ apply_cron_job c ∷ s.requests)
        (send (apply_cron_job c) (P.apply_cron_job c)) s refl

  ensure_cronjob-Applies :
      (job : AnsibleReconcileJob) (before : List Request) (s : Session P AnsibleReconcileJob)
      → Sent P before s
      → Post (λ _ t. Applies job before t) (ensure_cronjob_with_mounts P job) s
  unfolding ensure_cronjob_with_mounts
  ensure_cronjob-Applies job before s here =
      Post-then _ _ s (Post-with_error _ _ s (Post-read (P.list_hosts job.meta.namespace) s))
        λ hosts t got.
          Post-then _ _ t (Post-with_error _ _ t (Post-read (P.list_groups job.meta.namespace) t))
            λ groups u got'. Post-then _ _ u (Post-with_error _ _ u (Post-lift _ u)) λ meta v owned.
              Post-then _ _ v (Post-with_error _ _ v (Post-lift _ v)) λ c w converted.
                Post-weaken _ w
                  (λ _ x sent. (
                    c,
                    (s.server, t.server, hosts, groups, meta, got.0, got'.0, owned.0, converted.0),
                    ap cron_requests sent
                        ∙ ap (λ rs. apply_cron_job c ∷ rs)
                            (rw (converted.1, owned.1, got'.1, got.1) here),
                  ))
                  (Post-with_error _ _ w (send_lem c w))

  module _ (sent : List Request) where
    -- A step with the job in hand, about something else.
    skip :
        (owner : AnsibleReconcileJob) (text : String)
        (m : AnsibleReconcileJob → Exec (Session P AnsibleReconcileJob) (Unit {0}))
        (rest : Exec (Session P AnsibleReconcileJob) ReconcileResult)
        (Q : ReconcileResult → Session P AnsibleReconcileJob → Type 0)
        (s : Session P AnsibleReconcileJob)
        → Keeps (Same P owner) (m owner)
        → Keeps (Sent P sent) (m owner)
        → s.object ≡ owner
        → Sent P sent s
        → ((t : Session P AnsibleReconcileJob) → t.object ≡ owner → Sent P sent t → Post Q rest t)
        → Post Q (step P text (with_job P m) rest) s
    skip owner text m rest Q s same keeps here h k =
        Post-trying (with_job P m) _ _ s
          (Post-given (with_job P m) s (m owner) (rw here refl)
            (Post-state (λ t. Post Q rest t) (m owner) s (k _ (same.at s here) (keeps.at s h))))
          (λ e. at_err_lem P _ _ _)

    apply_and_conclude :
        (owner : AnsibleReconcileJob) (text : String) (s : Session P AnsibleReconcileJob)
        → s.object ≡ owner
        → Sent P sent s
        → Post
            (λ _ t. Applies owner sent t)
            (step P text (with_job P (ensure_cronjob_with_mounts P)) (conclude P))
            s
    apply_and_conclude owner text s here h =
        Post-trying (with_job P (ensure_cronjob_with_mounts P)) _ _ s
          (Post-given (with_job P (ensure_cronjob_with_mounts P)) s
            (ensure_cronjob_with_mounts P owner) (rw here refl)
            (Post-weaken _ s
              (λ _ t (c, is, log).
                Post-weaken (conclude P) t (λ _ u log'. (c, is, log'))
                  (conclude_lem P (Sent P (apply_cron_job c ∷ sent)) t
                    (update_status_conditions-Sent P _) (set_condition-Sent P _ _ _ _ _) log))
              (ensure_cronjob-Applies owner sent s h)))
          (λ e. at_err_lem P _ _ _)

    ensure_all_lem :
        (owner : AnsibleReconcileJob) (s : Session P AnsibleReconcileJob)
        → s.object ≡ owner
        → Sent P sent s
        → Post (λ _ t. Applies owner sent t) (ensure_all P) s
    unfolding ensure_all
    ensure_all_lem owner s here h =
        skip owner _ (ensure_inventory_configmap P) _ _ s
          (ensure_inventory_configmap-Same P owner owner)
          (ensure_inventory_configmap-Sent P sent owner) here h
          λ t t_here i.
            skip owner _ (ensure_known_hosts_secret_exists P) _ _ t
              (ensure_known_hosts-Same P owner owner) (ensure_known_hosts-Sent P sent owner) t_here
              i
              λ u u_here j.
                skip owner _ (ensure_runtime_config_map P) _ _ u
                  (ensure_runtime_config_map-Same P owner owner)
                  (ensure_runtime_config_map-Sent P sent owner) u_here j
                  λ v v_here k. apply_and_conclude owner _ v v_here k

  Applies-SameSpec :
      (j j' : AnsibleReconcileJob) (sent : List Request) (t : Session P AnsibleReconcileJob)
      → SameSpec j j'
      → Applies j' sent t
      → Applies j sent t
  unfolding cronjob_input
  Applies-SameSpec j j' sent t (m, n) p = rw (sym m, sym n) p

  -- Under the laws of status updates: where the reconcile of a job returns without an error, the one
  -- request that it has sent about cron jobs is to apply the cron job that is drawn up for the job and
  -- for the hosts and groups that the server listed for its namespace, controlled by the job.
  pub reconcile_job-Applies :
      (statuses : StatusLaws P) (s : Session P AnsibleReconcileJob) (r : ReconcileResult)
      → (reconcile_job P s).0 ≡ ok r
      → Applies s.object (cron_requests s.requests) (reconcile_job P s).1
  unfolding reconcile_job
  reconcile_job-Applies statuses s r =
      Post-elim (λ _ t. Applies s.object (cron_requests s.requests) t) (reconcile_job P) r s
        (Post-trying (default_all_statuses_to_unknown P) _ _ s
          (Post-weaken _ s
            (λ _ t (same, log).
              Post-weaken (ensure_all P) t
                (λ _ u p. Applies-SameSpec s.object t.object (cron_requests s.requests) u same p)
                (ensure_all_lem (cron_requests s.requests) t.object t refl log))
            (Post-both {R = Sent P (cron_requests s.requests)} (default_all_statuses_to_unknown P) s
              (default_all_statuses_to_unknown_lem P statuses s)
              ((default_all_statuses_to_unknown-Sent P (cron_requests s.requests)).at s refl)))
          (λ e. at_err_lem P _ _ _))
