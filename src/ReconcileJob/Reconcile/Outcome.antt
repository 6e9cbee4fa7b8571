-- ===== src/ReconcileJob/Reconcile/Outcome.antt =====
-- The conditions that a reconcile without an error leaves on a reconcile job.
use ansible_operator.Base.{
  String, ◌≡◌, ◌≢◌, refl, sym, Option, none, some, List, ok, if◌then◌else◌, ltb, Bool-cases, inl,
  inr, Exec, ne_of_test, wrap,
}
use ansible_operator.Base.Post.{
  Keeps, Post, Post-elim, Post-bind, Post-weaken, Post-with_error, Post-trying, Post-then,
  Post-pure, Post-state,
}
use mathlib.Core.Path.{subst}
use ansible_operator.Api.{
  ObjectMeta, AnsibleReconcileJob, ConditionStatus, condition_true, condition_false,
  condition_unknown,
}
use ansible_operator.Kube.{Platform, Session, Job, ReconcileResult, done, this}
use ansible_operator.Kube.Laws.{Has, ConditionLaws, StatusLaws}
use ansible_operator.Kube.Steps.{Post-read}
use ansible_operator.ReconcileJob.Status.Laws.{
  Sets, default_all_statuses_to_unknown_lem, set_condition_lem, Has-Sets, Has-Sets_ne,
}
use ansible_operator.ReconcileJob.Status.{default_all_statuses_to_unknown}
use ansible_operator.ReconcileJob.Progress.{
  Started, newest_job, job_label_owner_reconcile_job, update_successful_status,
  update_progressing_status, forget_jobs, report_newest, report_jobs, update_status_conditions,
}
use ansible_operator.ReconcileJob.Reconcile.Keeping.{
  Same, ensure_inventory_configmap-Same, ensure_known_hosts-Same, ensure_runtime_config_map-Same,
  ensure_cronjob_with_mounts-Same, at_err_lem,
}
use ansible_operator.ReconcileJob.Reconcile.{step, with_job, conclude, ensure_all, reconcile_job}

-- What the conditions say of the newest job, which is the one that started last.
abbrev pub progressing : Option Started → ConditionStatus
progressing none = condition_unknown
progressing (some n) = if ltb 0 n.job.active then condition_true else condition_false

abbrev pub successful : Option Started → ConditionStatus
successful none = condition_unknown
successful (some n) =
    if ltb 0 n.job.succeeded
    then condition_true
    else if ltb 0 n.job.failed
    then condition_false
    else condition_unknown

module _ (P : Platform) (conditions : ConditionLaws P) (laws : StatusLaws P) where
  abbrev JobSession : Type 0
  JobSession = Session P AnsibleReconcileJob

  -- The two conditions tell how this job does.
  abbrev Told : Option Started → JobSession → Type 0
  Told newest t =
      Has P t.object.conditions "Progressing" (progressing newest)
      × Has P t.object.conditions "Successful" (successful newest)

  update_successful_status_lem :
      (n : Started) (s : JobSession)
      → Post
          (λ _ t. Sets P "Successful" (successful (some n)) s.object t.object)
          (update_successful_status P n.job)
          s
  unfolding update_successful_status
  update_successful_status_lem n s = elim (Bool-cases (ltb 0 n.job.succeeded)) [
    | inl yes_succeeded ↦
        rw yes_succeeded (Post-with_error _ _ s (set_condition_lem P laws _ _ _ _ s))
    | inr none_succeeded ↦ elim (Bool-cases (ltb 0 n.job.failed)) [
      | inl some_failed ↦
          rw (none_succeeded, some_failed)
            (Post-with_error _ _ s (set_condition_lem P laws _ _ _ _ s))
      | inr none_failed ↦
          rw (none_succeeded, none_failed)
            (Post-with_error _ _ s (set_condition_lem P laws _ _ _ _ s))
    ]
  ]

  update_progressing_status_lem :
      (n : Started) (s : JobSession)
      → Post
          (λ _ t. Sets P "Progressing" (progressing (some n)) s.object t.object)
          (update_progressing_status P n.job)
          s
  unfolding update_progressing_status
  update_progressing_status_lem n s = elim (Bool-cases (ltb 0 n.job.active)) [
    | inl active ↦ rw active (Post-with_error _ _ s (set_condition_lem P laws _ _ _ _ s))
    | inr idle ↦ rw idle (Post-with_error _ _ s (set_condition_lem P laws _ _ _ _ s))
  ]

  progressing_ne : ◌≢◌ {A = String} "Progressing" "Successful"
  progressing_ne = ne_of_test "Progressing" "Successful" refl

  successful_ne : ◌≢◌ {A = String} "Successful" "Progressing"
  successful_ne = ne_of_test "Successful" "Progressing" refl

  progressing_ne_ready : ◌≢◌ {A = String} "Progressing" "Ready"
  progressing_ne_ready = ne_of_test "Progressing" "Ready" refl

  successful_ne_ready : ◌≢◌ {A = String} "Successful" "Ready"
  successful_ne_ready = ne_of_test "Successful" "Ready" refl

  report_newest_lem :
      (newest : Option Started) (s : JobSession)
      → Post (λ _ t. Told newest t) (report_newest P newest) s
  unfolding report_newest forget_jobs
  report_newest_lem none s =
      Post-then _ _ s (Post-with_error _ _ s (set_condition_lem P laws _ _ _ _ s)) λ _ t p.
        Post-then _ _ t (Post-with_error _ _ t (set_condition_lem P laws _ _ _ _ t)) λ _ u q.
          Post-pure tt u (
            Has-Sets P conditions _ _ _ _ q,
            Has-Sets_ne P conditions _ _ _ _ _ _ successful_ne q (Has-Sets P conditions _ _ _ _ p),
          )
  report_newest_lem (some n) s =
      Post-then _ _ s (Post-with_error _ _ s (update_progressing_status_lem n s)) λ _ t p.
        Post-weaken _ t
          (λ _ u q. (
            Has-Sets_ne P conditions _ _ _ _ _ _ progressing_ne q (Has-Sets P conditions _ _ _ _ p),
            Has-Sets P conditions _ _ _ _ q,
          ))
          (Post-with_error _ _ t (update_successful_status_lem n t))

  -- The two conditions tell how the newest of the jobs does that the server, in some state, lists
  -- for the reconcile job.
  abbrev pub ToldNewest : ObjectMeta → AnsibleReconcileJob → Type 0
  ToldNewest owner job =
      (u : P.State) × (jobs : List Job) × (P.list_jobs owner.namespace job_label_owner_reconcile_job
          owner.name u
        ≡ ok jobs)
      × Has P job.conditions "Progressing" (progressing (newest_job none jobs))
      × Has P job.conditions "Successful" (successful (newest_job none jobs))

  update_status_conditions_lem :
      (s : JobSession)
      → Post (λ _ t. ToldNewest s.object.meta t.object) (update_status_conditions P) s
  unfolding update_status_conditions report_jobs
  update_status_conditions_lem s = Post-bind this (report_jobs P) s (record {
    holds =
        Post-then _ (λ jobs. report_newest P (newest_job none jobs)) s
          (Post-with_error (wrap "unable to fetch matching jobs") _ s (
            Post-read
              (P.list_jobs s.object.meta.namespace job_label_owner_reconcile_job s.object.meta.name)
              s))
          λ jobs t p.
            Post-weaken _ t (λ _ u q. (s.server, jobs, p.0, q.0, q.1))
              (report_newest_lem (newest_job none jobs) t);
  })

  -- Of a reconcile of `owner` that has returned.
  abbrev pub Reported : ObjectMeta → ReconcileResult → JobSession → Type 0
  Reported owner r t =
      (r ≡ done) × Has P t.object.conditions "Ready" condition_true × ToldNewest owner t.object

  conclude_lem : (s : JobSession) → Post (Reported s.object.meta) (conclude P) s
  unfolding conclude
  conclude_lem s =
      Post-trying _ _ _ s
        (Post-weaken _ s
          (λ _ t told.
            Post-trying _ _ _ t
              (Post-weaken _ t
                (λ _ u q. Post-pure done u (
                  refl,
                  Has-Sets P conditions _ _ _ _ q,
                  (
                    told.0,
                    told.1,
                    told.2,
                    Has-Sets_ne P conditions _ _ _ _ _ _ progressing_ne_ready q told.3,
                    Has-Sets_ne P conditions _ _ _ _ _ _ successful_ne_ready q told.4,
                  ),
                ))
                (set_condition_lem P laws _ _ _ _ t))
              (λ e. at_err_lem P _ _ _))
          (update_status_conditions_lem s))
        (λ e. at_err_lem P _ _ _)

  Same-then :
      (owner : AnsibleReconcileJob) (text : String)
      (m : AnsibleReconcileJob → Exec JobSession (Unit {0}))
      (rest : Exec JobSession ReconcileResult) (s : JobSession)
      → s.object ≡ owner
      → ((job : AnsibleReconcileJob) → Keeps (Same P owner) (m job))
      → ((t : JobSession) → t.object ≡ owner → Post (Reported owner.meta) rest t)
      → Post (Reported owner.meta) (step P text (with_job P m) rest) s
  Same-then owner text m rest s same keeps k =
      Post-trying (with_job P m) _ _ s
        (Post-state (λ t. Post (Reported owner.meta) rest t) (with_job P m) s
          (k _ ((keeps s.object).at s same)))
        (λ e. at_err_lem P _ _ _)

  ensure_all_lem :
      (owner : AnsibleReconcileJob) (s : JobSession)
      → s.object ≡ owner
      → Post (Reported owner.meta) (ensure_all P) s
  unfolding ensure_all
  ensure_all_lem owner s same =
      Same-then owner _ _ _ s same (ensure_inventory_configmap-Same P owner) λ t p.
        Same-then owner _ _ _ t p (ensure_known_hosts-Same P owner) λ u q.
          Same-then owner _ _ _ u q (ensure_runtime_config_map-Same P owner) λ v r.
            Same-then owner _ _ _ v r (ensure_cronjob_with_mounts-Same P owner)
              λ w e. rw (sym e) (conclude_lem w)

  -- Under the laws of conditions and of status updates: where the reconcile of a job returns without
  -- an error, it asks for no other reconcile, and leaves the job in hand with `Ready` true, and with
  -- `Progressing` and `Successful` as the job that started last has them, of those that the server, in
  -- some state, lists for the reconcile job. That one alone counts. `Progressing` is unknown if none
  -- has started, true if it has active pods, and else false, also where a job that started earlier is
  -- still active. `Successful` is true if it has pods that succeeded, else false if it has failed ones,
  -- and else, or if none has started, unknown, also where a job that started earlier has ended.
  pub reconcile_job-Reported :
      (s : JobSession) (r : ReconcileResult)
      → (reconcile_job P s).0 ≡ ok r
      → Reported s.object.meta r (reconcile_job P s).1
  unfolding reconcile_job
  reconcile_job-Reported s r = Post-elim (Reported s.object.meta) _ r s (
      Post-trying (default_all_statuses_to_unknown P) _ _ s
        (Post-weaken _ s
          (λ _ t same.
            subst (λ m. Post (Reported m) (ensure_all P) t) same.0 (ensure_all_lem t.object t refl))
          (default_all_statuses_to_unknown_lem P laws s))
        (λ e. at_err_lem P _ _ _))
