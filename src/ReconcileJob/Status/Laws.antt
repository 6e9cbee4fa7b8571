-- ===== src/ReconcileJob/Status/Laws.antt =====
-- What setting a condition on a reconcile job makes of it, where it fails with no error.
use ansible_operator.Base.{String, ◌<>◌, ◌≡◌, refl, ◌∙◌, ◌>>◌, ap, ◌≢◌, List, [], ◌∷◌, arith}
use ansible_operator.Base.Post.{Post, Post-bind, Post-weaken, Post-then, Post-with_error, Post-pure}
use ansible_operator.Api.{AnsibleReconcileJob, Condition, ConditionStatus, condition_unknown}
use ansible_operator.Kube.{Platform, Session, this}
use ansible_operator.Kube.Laws.{Has, ConditionLaws, StatusLaws}
use ansible_operator.ReconcileJob.Status.{
  push_status, set_condition, default_status_to_unknown, default_one, default_each,
  default_all_statuses_to_unknown,
}

abbrev pub SameSpec : AnsibleReconcileJob → AnsibleReconcileJob → Type 0
SameSpec j j' = (j'.meta ≡ j.meta) × (j'.spec ≡ j.spec)

module _ (P : Platform) where
  abbrev pub with_condition : AnsibleReconcileJob → Condition → AnsibleReconcileJob
  with_condition job c = record job { conditions = (P.set_status_condition job.conditions c).0 }

  -- The job has been given this condition.
  abbrev pub Sets : String → ConditionStatus → AnsibleReconcileJob → AnsibleReconcileJob → Type 0
  Sets type status j j' =
      (reason message : String) × (j'
        ≡ with_condition j
            (record { type = type; status = status; reason = reason; message = message }))

module _ (P : Platform) (laws : StatusLaws P) where
  set_condition_exact :
      (type : String) (status : ConditionStatus) (reason message : String)
      (s : Session P AnsibleReconcileJob)
      → Post
          (λ _ t.
            t.object
            ≡ with_condition P s.object
                (record { type = type; status = status; reason = reason; message = message }))
          (set_condition P type status reason message)
          s
  unfolding set_condition push_status
  set_condition_exact type status reason message s =
      let updated : AnsibleReconcileJob =
        with_condition P s.object
          (record { type = type; status = status; reason = reason; message = message }) in
      record { holds = ground (arith, laws.reconcile_job_echo updated s.server) }

  pub set_condition_lem :
      (type : String) (status : ConditionStatus) (reason message : String)
      (s : Session P AnsibleReconcileJob)
      → Post
          (λ _ t. Sets P type status s.object t.object)
          (set_condition P type status reason message)
          s
  set_condition_lem type status reason message s =
      Post-weaken _ s (λ _ t e. (reason, message, e))
        (set_condition_exact type status reason message s)

module _ (P : Platform) where
  pub Sets-meta :
      (type : String) (status : ConditionStatus) (j j' : AnsibleReconcileJob)
      → Sets P type status j j'
      → j'.meta ≡ j.meta
  Sets-meta type status j j' (reason, message, e) = ap (λ (x : AnsibleReconcileJob). x.meta) e

  pub default_status_to_unknown-SameSpec :
      (type : String) (s : Session P AnsibleReconcileJob)
      → StatusLaws P
      → Post (λ _ t. SameSpec s.object t.object) (default_status_to_unknown P type) s
  unfolding default_status_to_unknown set_condition push_status
  default_status_to_unknown-SameSpec type s laws =
      let updated : AnsibleReconcileJob = with_condition P s.object (record {
        type = type;
        status = condition_unknown;
        reason = "ReconcileStarted";
        message = "AnsibleReconcileJob is initializing: " <> (type <> " condition not set");
      }) in
      record { holds = ground (arith, laws.reconcile_job_echo updated s.server) }

module _ (P : Platform) (laws : StatusLaws P) where
  default_each_lem :
      (conditions : List String) (s : Session P AnsibleReconcileJob)
      → Post (λ _ t. SameSpec s.object t.object) (default_each P conditions) s
  unfolding default_each default_one
  default_each_lem [] s = Post-pure tt s (refl, refl)
  default_each_lem (condition ∷ rest) s =
      Post-bind this (λ job. default_one P condition job >> default_each P rest) s
        (record {
          holds =
              Post-then _ _ s
                (Post-with_error _ _ s (default_status_to_unknown-SameSpec P condition s laws))
                λ _ t p.
                  Post-weaken _ t (λ _ u q. (q.0 ∙ p.0, q.1 ∙ p.1)) (default_each_lem rest t);
        })

  pub default_all_statuses_to_unknown_lem :
      (s : Session P AnsibleReconcileJob)
      → Post (λ _ t. SameSpec s.object t.object) (default_all_statuses_to_unknown P) s
  unfolding default_all_statuses_to_unknown default_each
  default_all_statuses_to_unknown_lem s =
      default_each_lem ("Ready" ∷ "Progressing" ∷ "Successful" ∷ []) s

module _ (P : Platform) (conditions : ConditionLaws P) where
  pub Has-Sets :
      (type : String) (status : ConditionStatus) (j j' : AnsibleReconcileJob)
      → Sets P type status j j'
      → Has P j'.conditions type status
  Has-Sets type status j j' (reason, message, e) =
      let c : Condition = record {
        type = type;
        status = status;
        reason = reason;
        message = message;
      } in
      ground (
        arith,
        ap (λ (x : AnsibleReconcileJob). x.conditions) e,
        conditions.find-set_self j.conditions c,
      )

  -- A condition of another type stays.
  pub Has-Sets_ne :
      (type t : String) (status now : ConditionStatus) (j j' : AnsibleReconcileJob)
      → t ≢ type
      → Sets P type status j j'
      → Has P j.conditions t now
      → Has P j'.conditions t now
  Has-Sets_ne type t status now j j' ne (reason, message, e) h =
      let c : Condition = record {
        type = type;
        status = status;
        reason = reason;
        message = message;
      } in
      ground (
        arith,
        ap (λ (x : AnsibleReconcileJob). x.conditions) e,
        conditions.find-set_ne j.conditions c t ne,
        h,
      )
