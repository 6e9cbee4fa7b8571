-- ===== src/Group/Reconcile/Reporting.antt =====
-- `report` sets the conditions that tell what the health check found.
use ansible_operator.Base.{
  String, ◌≡◌, ◌≢◌, refl, Bool, ◌||◌, ◌&&◌, not, List, arith, if◌then◌else◌, Bool-cases, inl, inr,
  ne_of_test, ap,
}
use ansible_operator.Base.Post.{Post, Post-weaken, Post-with_error, Post-if, Post-then, Post-pure}
use ansible_operator.Api.{AnsibleGroup, Condition, ConditionStatus, condition_true, condition_false}
use ansible_operator.Kube.{Platform, Session, done}
use ansible_operator.Kube.Laws.{Has, ConditionLaws, StatusLaws}
use ansible_operator.Group.Status.Laws.{with_condition, set_condition_lem, SameSpec}
use ansible_operator.Group.Health.{GroupHealthcheckResult}
use ansible_operator.Group.Reconcile.{
  refs_invalid, objects_unhealthy, put_condition, report_references, report_health, report,
}

module _ (P : Platform) where
  abbrev pub verdict : Bool → ConditionStatus
  verdict bad = if bad then condition_false else condition_true

  -- The three conditions tell what the health check found.
  pub record Reports (h : GroupHealthcheckResult) (conditions : List Condition) : Type 0 where
    pub references_valid : Has P conditions "ReferencesValid" (verdict (refs_invalid h))
    pub healthy : Has P conditions "Healthy" (verdict (objects_unhealthy h))
    pub ready : Has P conditions "Ready" (verdict (refs_invalid h || objects_unhealthy h))

module _ (P : Platform) (conditions : ConditionLaws P) (laws : StatusLaws P) where
  -- `s` has been given these conditions by status updates.
  abbrev pub Sets : String → ConditionStatus → AnsibleGroup → AnsibleGroup → Type 0
  Sets type status g g' =
      (reason message : String) × (g'
        ≡ with_condition P g
            (record { type = type; status = status; reason = reason; message = message }))

  pub put_condition_lem :
      (type : String) (status : ConditionStatus) (reason message : String)
      (s : Session P AnsibleGroup)
      → Post
          (λ _ t. Sets type status s.object t.object)
          (put_condition P type status reason message)
          s
  unfolding put_condition
  put_condition_lem type status reason message s = Post-with_error _ _ s (
      Post-weaken _ s (λ _ t e. (reason, message, e))
        (set_condition_lem P laws type status reason message s))

  report_references_lem :
      (h : GroupHealthcheckResult) (s : Session P AnsibleGroup)
      → Post
          (λ _ t. Sets "ReferencesValid" (verdict P (refs_invalid h)) s.object t.object)
          (report_references P h)
          s
  unfolding report_references
  report_references_lem h s = elim (Bool-cases (refs_invalid h)) [
    | inl bad ↦ rw bad (put_condition_lem _ _ _ _ s)
    | inr good ↦ rw good (put_condition_lem _ _ _ _ s)
  ]

  report_health_lem :
      (h : GroupHealthcheckResult) (s : Session P AnsibleGroup)
      → Post
          (λ _ t. Sets "Healthy" (verdict P (objects_unhealthy h)) s.object t.object)
          (report_health P h)
          s
  unfolding report_health
  report_health_lem h s = elim (Bool-cases (objects_unhealthy h)) [
    | inl bad ↦ rw bad (put_condition_lem _ _ _ _ s)
    | inr good ↦ rw good (put_condition_lem _ _ _ _ s)
  ]

  Has-Sets :
      (type : String) (status : ConditionStatus) (g g' : AnsibleGroup)
      → Sets type status g g'
      → Has P g'.conditions type status
  Has-Sets type status g g' (reason, message, e) =
      let c : Condition = record {
        type = type;
        status = status;
        reason = reason;
        message = message;
      } in
      ground
        (arith, ap (λ (x : AnsibleGroup). x.conditions) e, conditions.find-set_self g.conditions c)

  Has-Sets_ne :
      (type other_type : String) (status other_status : ConditionStatus) (g g' : AnsibleGroup)
      → other_type ≢ type
      → Sets type status g g'
      → Has P g.conditions other_type other_status
      → Has P g'.conditions other_type other_status
  Has-Sets_ne type other_type status other_status g g' ne (reason, message, e) h =
      let c : Condition = record {
        type = type;
        status = status;
        reason = reason;
        message = message;
      } in
      ground (
        arith,
        ap (λ (x : AnsibleGroup). x.conditions) e,
        conditions.find-set_ne g.conditions c other_type,
      )

  abbrev pub Reported : GroupHealthcheckResult → AnsibleGroup → AnsibleGroup → Type 0
  Reported h g g' = SameSpec g g' × Reports P h g'.conditions

  SameSpec-Sets :
      {type₁ type₂ type₃ : String} {v₁ v₂ v₃ : ConditionStatus} {a b c d : AnsibleGroup}
      → Sets type₁ v₁ a b
      → Sets type₂ v₂ b c
      → Sets type₃ v₃ c d
      → SameSpec a d
  SameSpec-Sets (_, _, e) (_, _, f) (_, _, g) = ground (arith, e, f, g)

  -- The three writes, in either order of the first two.
  healthy_first :
      (h : GroupHealthcheckResult) (a b c d : AnsibleGroup)
      → Sets "Healthy" (verdict P (objects_unhealthy h)) a b
      → Sets "ReferencesValid" (verdict P (refs_invalid h)) b c
      → Sets "Ready" (verdict P (refs_invalid h || objects_unhealthy h)) c d
      → Reported h a d
  healthy_first h a b c d p q r = (
    SameSpec-Sets p q r,
    record {
      references_valid = Has-Sets_ne "Ready" _ _ _ c d (ne_of_test _ _ refl) r (Has-Sets _ _ b c q);
      healthy =
          Has-Sets_ne "Ready" _ _ _ c d (ne_of_test _ _ refl) r
            (Has-Sets_ne "ReferencesValid" _ _ _ b c (ne_of_test _ _ refl) q (Has-Sets _ _ a b p));
      ready = Has-Sets _ _ c d r;
    },
  )

  references_first :
      (h : GroupHealthcheckResult) (a b c d : AnsibleGroup)
      → Sets "ReferencesValid" (verdict P (refs_invalid h)) a b
      → Sets "Healthy" (verdict P (objects_unhealthy h)) b c
      → Sets "Ready" (verdict P (refs_invalid h || objects_unhealthy h)) c d
      → Reported h a d
  references_first h a b c d p q r = (
    SameSpec-Sets p q r,
    record {
      references_valid =
          Has-Sets_ne "Ready" _ _ _ c d (ne_of_test _ _ refl) r
            (Has-Sets_ne "Healthy" _ _ _ b c (ne_of_test _ _ refl) q (Has-Sets _ _ a b p));
      healthy = Has-Sets_ne "Ready" _ _ _ c d (ne_of_test _ _ refl) r (Has-Sets _ _ b c q);
      ready = Has-Sets _ _ c d r;
    },
  )

  put_verdict :
      (type : String) (v status : ConditionStatus) (reason message : String)
      (s : Session P AnsibleGroup)
      → v ≡ status
      → Post (λ _ t. Sets type v s.object t.object) (put_condition P type status reason message) s
  put_verdict type v status reason message s e =
      rw e (put_condition_lem type status reason message s)

  pub report_lem :
      (h : GroupHealthcheckResult) (s : Session P AnsibleGroup)
      → Post (λ _ t. Reported h s.object t.object) (report P h) s
  unfolding report
  report_lem h s =
      Post-if (not (refs_invalid h) && not (objects_unhealthy h)) _ _ s
        (λ well.
          Post-then _ _ s (put_verdict _ (verdict P (objects_unhealthy h)) _ _ _ s (ground arith))
            λ _ t p.
              Post-then _ _ t (put_verdict _ (verdict P (refs_invalid h)) _ _ _ t (ground arith))
                λ _ u q.
                  Post-then _ _ u
                    (put_verdict _ (verdict P (refs_invalid h || objects_unhealthy h)) _ _ _ u
                      (ground arith))
                    λ _ v r.
                      Post-pure done v (healthy_first h s.object t.object u.object v.object p q r))
        (λ bad. Post-then _ _ s (report_references_lem h s) λ _ t p.
          Post-then _ _ t (report_health_lem h t) λ _ u q.
            Post-then _ _ u
              (put_verdict _ (verdict P (refs_invalid h || objects_unhealthy h)) _ _ _ u
                (ground arith))
              λ _ v r.
                Post-pure done v (references_first h s.object t.object u.object v.object p q r))
