-- ===== src/Group/Reconcile/Settling.antt =====
-- A reconcile of a group whose variables are in place puts the three conditions there.
use ansible_operator.Base.{
  String, ◌<>◌, ◌≡◌, ◌≢◌, refl, sym, ap, ◌∙◌, ◌∷◌, true, false, some, arith, ok, succeeded,
  Bool-cases, Option-cases, inl, inr, ne_of_test, wrap_text, with_error,
}
use ansible_operator.Base.Sure.{
  Sure, Sure-pure, Sure-with_error, Sure-given, Sure-same, Sure-weaken, Sure-bind,
}
use mathlib.Core.Path.{subst}
use ansible_operator.Api.{AnsibleGroup, Condition, condition_unknown}
use ansible_operator.Kube.{Platform, Session, update_group_status, done}
use ansible_operator.Kube.Laws.{ConditionLaws, StatusLaws, FrameLaws, MemberLaws}
use ansible_operator.VarsConfigMap.{vars_key}
use ansible_operator.VarsConfigMap.Laws.{IsOwnVars, InPlace, ensure_vars_idle}
use ansible_operator.Group.Status.{push_status, set_condition, default_status_to_unknown}
use ansible_operator.Group.Status.Laws.{with_condition, SameSpec}
use ansible_operator.Group.Health.Frame.{NotOwnSubgroup, check_group_health-update_status}
use ansible_operator.Group.Health.{GroupHealthcheckResult, check_group_health}
use ansible_operator.Group.Reconcile.{
  put_condition, report, reconcile_group, check_and_report, default_conditions,
  ensure_vars_config_map,
}
use ansible_operator.Group.Reconcile.Outcome.{check_group_health-SameSpec}
use ansible_operator.Group.Reconcile.Idle.{
  references_condition, health_condition, ready_condition, Shows, put, put_three,
  report-eq-put_three,
}

-- The server takes every status of the group `g`.
abbrev pub TakesStatus : Platform → AnsibleGroup → Type 0
TakesStatus P g =
    (x : AnsibleGroup) (u : P.State) → SameSpec g x → succeeded (P.update_group_status x u).0 ≡ true

-- What else is known of the server and the group, and stays true when the status of `g` is written, or is found
-- not to have changed.
pub record Tracked (P : Platform) (g : AnsibleGroup) (Also : P.State → AnsibleGroup → Type 0)
    : Type 0 where
  pub wrote :
      (x y : AnsibleGroup) (u : P.State)
      → SameSpec g y
      → Also u x
      → Also (P.update_group_status y u).1 y
  pub kept :
      (c : Condition) (x : AnsibleGroup) (u : P.State)
      → (P.set_status_condition x.conditions c).1 ≡ false
      → Also u x
      → Also u (with_condition P x c)

module _ (P : Platform) (conditions : ConditionLaws P) (statuses : StatusLaws P)
    (frame : FrameLaws P) (members : MemberLaws P) (g : AnsibleGroup) (accepted : TakesStatus P g)
    (apart : NotOwnSubgroup g) (h : GroupHealthcheckResult) (Also : P.State → AnsibleGroup → Type 0)
    (tracked : Tracked P g Also) where
  abbrev GroupSession : Type 0
  GroupSession = Session P AnsibleGroup

  -- The session is about `g`, with whatever conditions, and all is in place.
  pub record Good (t : GroupSession) : Type 0 where
    pub same : SameSpec g t.object
    pub placed : InPlace P g.meta g.spec.group_vars t.server
    pub checked : check_group_health P g t.server ≡ ok h
    pub also : Also t.server t.object

  set_condition-Sure :
      (c : Condition) (t : GroupSession)
      → Good t
      → Sure
          (λ _ u. Good u × (u.object ≡ with_condition P t.object c))
          (set_condition P c.type c.status c.reason c.message)
          t
  unfolding set_condition push_status
  set_condition-Sure c t good =
      let updated = with_condition P t.object c in
      elim (Bool-cases (P.set_status_condition t.object.conditions c).1) [
        | inl changed ↦
            Sure-given _ t tt
              (record {
                server = (P.update_group_status updated t.server).1;
                requests = update_group_status updated ∷ t.requests;
                object = updated;
              })
              (ground (
                arith,
                changed,
                statuses.group_echo updated t.server (accepted updated t.server good.same),
              ))
              (
                record {
                  same = good.same;
                  placed =
                      subst (IsOwnVars P g.meta g.spec.group_vars)
                        (sym (frame.get-group_status (vars_key g.meta) updated t.server))
                        good.placed;
                  checked =
                      check_group_health-update_status P members updated t.server g good.same.0
                        apart
                      ∙ good.checked;
                  also = tracked.wrote t.object updated t.server good.same good.also;
                },
                refl,
              )
        | inr unchanged ↦
            Sure-given _ t tt (record t { object = updated }) (ground (arith, unchanged))
              (
                record {
                  same = good.same;
                  placed = good.placed;
                  checked = good.checked;
                  also = tracked.kept c t.object t.server unchanged good.also;
                },
                refl,
              )
      ]

  default-Sure :
      (type : String) (t : GroupSession)
      → Good t
      → Sure (λ _ u. Good u) (default_status_to_unknown P type) t
  unfolding default_status_to_unknown
  default-Sure type t good =
      let c : Condition = record {
        type = type;
        status = condition_unknown;
        reason = "ReconcileStarted";
        message = "AnsibleGroup is initializing: " <> (type <> " condition not set");
      } in
      elim (Option-cases (P.find_status_condition t.object.conditions type)) [
        | inl missing ↦
            Sure-same _
              (with_error (wrap_text "failed to set condition on AnsibleGroup")
                (set_condition P type c.status c.reason c.message))
              t (ground (arith, missing))
              (Sure-with_error _ _ t
                (Sure-weaken _ t (λ _ u (good', _). good') (set_condition-Sure c t good)))
        | inr (c', found) ↦ Sure-given _ t tt t (ground (arith, found)) good
      ]

  default_conditions-Sure :
      (t : GroupSession) → Good t → Sure (λ _ u. Good u) (default_conditions P) t
  unfolding default_conditions
  default_conditions-Sure t good =
      Sure-bind _ _ t (Sure-with_error _ _ t (default-Sure "Healthy" t good)) λ _ u good_u.
        Sure-bind _ _ u (Sure-with_error _ _ u (default-Sure "ReferencesValid" u good_u))
          λ _ v good_v. Sure-with_error _ _ v (default-Sure "Ready" v good_v)

  put-Sure :
      (c : Condition) (t : GroupSession)
      → Good t
      → Sure (λ _ u. Good u × (u.object ≡ with_condition P t.object c)) (put P c) t
  unfolding put_condition
  put-Sure c t good = Sure-with_error _ _ t (set_condition-Sure c t good)

  find-kept :
      (c : Condition) (type : String) (x y : AnsibleGroup)
      → y ≡ with_condition P x c
      → type ≢ c.type
      → P.find_status_condition y.conditions type ≡ P.find_status_condition x.conditions type
  find-kept c type x y e other = rw e (conditions.find-set_ne x.conditions c type other)

  find-put :
      (c : Condition) (x y : AnsibleGroup)
      → y ≡ with_condition P x c
      → P.find_status_condition y.conditions c.type ≡ some c
  find-put c x y e = rw e (conditions.find-set_self x.conditions c)

  -- After three conditions of different types each is there.
  put_three-Sure :
      (a b c : Condition) (t : GroupSession)
      → a.type ≢ b.type
      → a.type ≢ c.type
      → b.type ≢ c.type
      → Good t
      → Sure
          (λ r u.
            (r ≡ done)
            × Good u
            × (P.find_status_condition u.object.conditions a.type ≡ some a)
            × (P.find_status_condition u.object.conditions b.type ≡ some b)
            × (P.find_status_condition u.object.conditions c.type ≡ some c))
          (put_three P a b c)
          t
  unfolding put_three
  put_three-Sure a b c t ab ac bc good = Sure-bind _ _ t (put-Sure a t good) λ _ u (good_u, set_a).
      Sure-bind _ _ u (put-Sure b u good_u) λ _ v (good_v, set_b).
        Sure-bind _ _ v (put-Sure c v good_v) λ _ w (good_w, set_c). Sure-pure done w (
          refl,
          good_w,
          find-kept c a.type v.object w.object set_c ac
              ∙ (find-kept b a.type u.object v.object set_b ab
                  ∙ find-put a t.object u.object set_a),
          find-kept c b.type v.object w.object set_c bc ∙ find-put b u.object v.object set_b,
          find-put c v.object w.object set_c,
        )

  -- The three conditions are there.
  report-Sure :
      (t : GroupSession)
      → Good t
      → Sure (λ r u. (r ≡ done) × Good u × Shows P h u.object) (report P h) t
  report-Sure t good =
      let health = health_condition h in
      let references = references_condition h in
      let ready = ready_condition h in
      elim (report-eq-put_three P h) [
        | inl e ↦ Sure-same (report P h) (put_three P health references ready) t (ap (λ m. m t) e) (
            Sure-weaken _ t (λ _ u (d, good_u, p, q, r). (d, good_u, (q, p, r)))
              (put_three-Sure health references ready t (ne_of_test _ _ refl) (ne_of_test _ _ refl)
                (ne_of_test _ _ refl) good))
        | inr e ↦ Sure-same (report P h) (put_three P references health ready) t (ap (λ m. m t) e) (
            Sure-weaken _ t (λ _ u (d, good_u, p, q, r). (d, good_u, (p, q, r)))
              (put_three-Sure references health ready t (ne_of_test _ _ refl) (ne_of_test _ _ refl)
                (ne_of_test _ _ refl) good))
      ]

  pub Good-InPlace :
      (t : GroupSession) → Good t → InPlace P t.object.meta t.object.spec.group_vars t.server
  Good-InPlace t good = rw (good.same.0, good.same.1) good.placed

  pub Good-checked : (t : GroupSession) → Good t → check_group_health P t.object t.server ≡ ok h
  Good-checked t good =
      check_group_health-SameSpec P t.object g t.server (sym good.same.0, sym good.same.1)
      ∙ good.checked

  -- With the conditions there, the rest is the report.
  pub reconcile_group-Sure :
      (s : GroupSession)
      → Good s
      → Sure (λ r u. (r ≡ done) × Good u × Shows P h u.object) (reconcile_group P) s
  unfolding reconcile_group ensure_vars_config_map check_and_report
  reconcile_group-Sure s good = Sure-bind _ _ s (default_conditions-Sure s good) λ _ t good_t.
      Sure-same _ (report P h) t
        (rw (
          ensure_vars_idle P "AnsibleGroup" t.object.meta t.object.spec.group_vars t
              (Good-InPlace t good_t),
          Good-checked t good_t,
        ))
        (report-Sure t good_t)
