-- ===== src/Group/Reconcile/Outcome.antt =====
-- The conditions that a reconcile without an error leaves on a group.
use ansible_operator.Base.{String, ◌≡◌, ◌∙◌, arith, ok, Error}
use ansible_operator.Base.Post.{
  Post, Post-elim, Post-weaken, Post-with_error, Post-handling, Post-then, Post-fail, Post-state,
}
use ansible_operator.Kube.Steps.{Post-read, Post-this}
use ansible_operator.VarsConfigMap.Laws.{object-ensure_vars}
use ansible_operator.Api.{AnsibleGroup}
use ansible_operator.Kube.{Platform, Session, ReconcileResult, this}
use ansible_operator.Kube.Laws.{ConditionLaws, StatusLaws}
use ansible_operator.Group.Status.Laws.{default_status_to_unknown_lem, SameSpec}
use ansible_operator.Group.Health.{
  GroupHealthcheckResult, check_group_health, is_groups_array_ok, is_hosts_array_ok,
}
use ansible_operator.Group.Reconcile.{
  report, reconcile_group, check_and_report, default_conditions, give_up, ensure_vars_config_map,
}
use ansible_operator.Group.Reconcile.Reporting.{Reports, Reported, put_condition_lem, report_lem}

module _ (P : Platform) where
  -- The conditions of the group do not matter to its health.
  pub check_group_health-SameSpec :
      (g g' : AnsibleGroup) (u : P.State)
      → SameSpec g g'
      → check_group_health P g u ≡ check_group_health P g' u
  unfolding check_group_health is_groups_array_ok is_hosts_array_ok
  check_group_health-SameSpec g g' u (m, n) = rw (m, n)

module _ (P : Platform) (conditions : ConditionLaws P) (laws : StatusLaws P) where
  default_conditions_lem :
      (s : Session P AnsibleGroup)
      → Post (λ _ t. SameSpec s.object t.object) (default_conditions P) s
  unfolding default_conditions
  default_conditions_lem s =
      Post-then _ _ s (Post-with_error _ _ s (default_status_to_unknown_lem P laws _ s)) λ _ t p.
        Post-then _ _ t (Post-with_error _ _ t (default_status_to_unknown_lem P laws _ t)) λ _ u q.
          Post-weaken _ u (λ _ v r. ground (arith, p, q, r))
            (Post-with_error _ _ u (default_status_to_unknown_lem P laws _ u))

  give_up_lem :
      {A : Type 0} (Q : A → Session P AnsibleGroup → Type 0) (text : String) (e : Error)
      (s : Session P AnsibleGroup)
      → Post Q (give_up P text e) s
  unfolding give_up
  give_up_lem Q text e s =
      Post-then _ _ s (put_condition_lem P conditions laws _ _ _ _ s) λ _ t _. Post-fail e t

  object-ensure_vars_config_map :
      (s : Session P AnsibleGroup) → (ensure_vars_config_map P s).1.object ≡ s.object
  unfolding ensure_vars_config_map
  object-ensure_vars_config_map s = object-ensure_vars P _ s.object.meta s.object.spec.group_vars s

  -- What a reconcile without an error has established of its group `g`, which it leaves as `g'`:
  -- a health check of `g` against some state of the server, and conditions that tell its result.
  abbrev pub Reconciled : AnsibleGroup → AnsibleGroup → Type 0
  Reconciled g g' =
      (u : P.State) × (h : GroupHealthcheckResult) × (check_group_health P g u ≡ ok h)
      × SameSpec g g'
      × Reports P h g'.conditions

  check_and_report_lem :
      (group : AnsibleGroup) (s : Session P AnsibleGroup)
      → Post
          (λ _ t.
            (h : GroupHealthcheckResult) × (check_group_health P group s.server ≡ ok h)
            × Reported P conditions laws h s.object t.object)
          (check_and_report P group)
          s
  unfolding check_and_report
  check_and_report_lem group s =
      Post-then _ (report P) s
        (Post-handling _ _ s (Post-read (check_group_health P group) s)
          (λ e. give_up_lem _ "Failed to check group health: " e s))
        λ h t checked.
          Post-weaken (report P h) t (λ _ u told. (h, checked.0, rw checked.1 at told))
            (report_lem P conditions laws h t)

  reconcile_group_lem :
      (s : Session P AnsibleGroup)
      → Post (λ _ t. Reconciled s.object t.object) (reconcile_group P) s
  unfolding reconcile_group
  reconcile_group_lem s = Post-then _ _ s (default_conditions_lem s) λ _ t p.
      Post-then _ _ t
        (Post-handling _ _ t
          (Post-state (λ u. u.object ≡ t.object) (ensure_vars_config_map P) t
            (object-ensure_vars_config_map t))
          (λ e. give_up_lem _ _ e _))
        λ _ u q. Post-then this (check_and_report P) u (Post-this u) λ group v same.
          Post-weaken _ v
            (λ _ x (h, checked, told). (
              v.server,
              h,
              check_group_health-SameSpec P s.object group v.server (ground (arith, p, q, same))
                  ∙ checked,
              ground (arith, p, q, same, told.0),
              told.1,
            ))
            (check_and_report_lem group v)

  -- Under the laws of conditions and of status updates: if the reconcile of a group returns without an
  -- error, the server was in some state `u` in which
  -- the health check of the group had the result `h`, the spec and the metadata of the group are as
  -- they were, and the three conditions tell `h`: `ReferencesValid` is true exactly if no reference
  -- leads nowhere, `Healthy` exactly if no referenced object is not ready, `Ready` if both are.
  pub reconcile_group-Reconciled :
      (s : Session P AnsibleGroup) (r : ReconcileResult)
      → (reconcile_group P s).0 ≡ ok r
      → Reconciled s.object (reconcile_group P s).1.object
  reconcile_group-Reconciled s r = Post-elim _ (reconcile_group P) r s (reconcile_group_lem s)
