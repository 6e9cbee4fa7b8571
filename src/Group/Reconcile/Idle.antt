-- ===== src/Group/Reconcile/Idle.antt =====
-- A reconcile of a group whose conditions are as they should be sends nothing.
use ansible_operator.Base.{
  String, ◌<>◌, ◌≡◌, ◌∙◌, some, arith, ok, Exec, pure, ◌>>◌, ◌⊎◌, ap, if◌then◌else◌, Bool-cases,
  inl, inr, not, ◌&&◌,
}
use ansible_operator.Api.{AnsibleGroup, Condition, condition_true, condition_false}
use ansible_operator.Kube.{Platform, Session, ReconcileResult, done}
use ansible_operator.Kube.Laws.{ConditionLaws}
use ansible_operator.VarsConfigMap.Laws.{InPlace, ensure_vars_idle}
use ansible_operator.Group.Status.{set_condition, default_status_to_unknown}
use ansible_operator.Group.Health.{GroupHealthcheckResult, check_group_health}
use ansible_operator.Group.Reconcile.{
  refs_invalid, objects_unhealthy, object_reference_list_to_string, put_condition,
  report_references, report_health, report, reconcile_group, check_and_report, default_conditions,
  ensure_vars_config_map,
}

-- The conditions that a health check calls for, to the letter.
abbrev pub references_condition : GroupHealthcheckResult → Condition
references_condition h = record {
  type = "ReferencesValid";
  status = if refs_invalid h then condition_false else condition_true;
  reason = if refs_invalid h then "InvalidReferences" else "AllValid";
  message =
      if refs_invalid h
      then "One or more references are invalid: Missing Hosts: "
        <> (object_reference_list_to_string h.hosts_not_found
            <> (";Missing Subgroups: "
                <> (object_reference_list_to_string h.subgroups_not_found <> ";")))
      else "All referenced hosts and subgroups are valid";
}

abbrev pub health_condition : GroupHealthcheckResult → Condition
health_condition h = record {
  type = "Healthy";
  status = if objects_unhealthy h then condition_false else condition_true;
  reason = if objects_unhealthy h then "UnhealthyReferences" else "AllHealthy";
  message =
      if objects_unhealthy h
      then "One or more referenced objects are unhealthy: Unhealthy Hosts: "
        <> (object_reference_list_to_string h.hosts_not_healthy
            <> (";Unhealthy Subgroups: "
                <> (object_reference_list_to_string h.subgroups_not_healthy <> ";")))
      else "All referenced hosts and subgroups are healthy";
}

abbrev pub ready_condition : GroupHealthcheckResult → Condition
ready_condition h =
    let well = not (refs_invalid h) && not (objects_unhealthy h) in
    record {
      type = "Ready";
      status = if well then condition_true else condition_false;
      reason = if well then "Ready" else "UnhealthyOrInvalidReferences";
      message =
          if well
          then "AnsibleGroup is ready"
          else "One or more references are invalid or unhealthy.";
    }

module _ (P : Platform) where
  -- The group has these three conditions.
  abbrev pub Shows : GroupHealthcheckResult → AnsibleGroup → Type 0
  Shows h group =
      (P.find_status_condition group.conditions "ReferencesValid" ≡ some (references_condition h))
      × (P.find_status_condition group.conditions "Healthy" ≡ some (health_condition h))
      × (P.find_status_condition group.conditions "Ready" ≡ some (ready_condition h))

  -- The group has its variables in their config map, and a health check of it has this result.
  abbrev pub Stands : GroupHealthcheckResult → Session P AnsibleGroup → Type 0
  Stands h s =
      InPlace P s.object.meta s.object.spec.group_vars s.server
      × (check_group_health P s.object s.server ≡ ok h)

  abbrev pub put : Condition → Exec (Session P AnsibleGroup) (Unit {0})
  put c = put_condition P c.type c.status c.reason c.message

  -- three conditions, one after the other
  unfoldable pub put_three :
      Condition → Condition → Condition → Exec (Session P AnsibleGroup) ReconcileResult
  put_three a b c = do put a; put b; put c; pure done

  report_references-eq-put :
      (h : GroupHealthcheckResult) → report_references P h ≡ put (references_condition h)
  unfolding report_references
  report_references-eq-put h = elim (Bool-cases (refs_invalid h)) [
    | inl bad ↦ rw bad
    | inr good ↦ rw good
  ]

  report_health-eq-put : (h : GroupHealthcheckResult) → report_health P h ≡ put (health_condition h)
  unfolding report_health
  report_health-eq-put h = elim (Bool-cases (objects_unhealthy h)) [
    | inl bad ↦ rw bad
    | inr good ↦ rw good
  ]

  -- The report puts the three conditions, in one order or the other.
  pub report-eq-put_three :
      (h : GroupHealthcheckResult)
      → (report P h ≡ put_three (health_condition h) (references_condition h) (ready_condition h))
        ⊎ (report P h ≡ put_three (references_condition h) (health_condition h) (ready_condition h))
  unfolding report put_three
  report-eq-put_three h = elim (Bool-cases (refs_invalid h)) [
    | inl invalid ↦ inr (rw (report_references-eq-put h, report_health-eq-put h, invalid))
    | inr valid ↦ elim (Bool-cases (objects_unhealthy h)) [
      | inl unhealthy ↦
          inr (rw (report_references-eq-put h, report_health-eq-put h, valid, unhealthy))
      | inr well ↦ inl (rw (valid, well))
    ]
  ]

  module _ (conditions : ConditionLaws P) where
    put_idle :
        (c : Condition) (s : Session P AnsibleGroup)
        → P.find_status_condition s.object.conditions c.type ≡ some c
        → put c s ≡ (ok tt, s)
    unfolding put_condition set_condition
    put_idle c s found =
        let same = conditions.unchanged_iff_1 s.object.conditions c found in
        ground (arith, same, conditions.unchanged_iff_2 s.object.conditions c same)

    put_three_idle :
        (a b c : Condition) (s : Session P AnsibleGroup)
        → P.find_status_condition s.object.conditions a.type ≡ some a
        → P.find_status_condition s.object.conditions b.type ≡ some b
        → P.find_status_condition s.object.conditions c.type ≡ some c
        → put_three a b c s ≡ (ok done, s)
    unfolding put_three
    put_three_idle a b c s p q r = rw (put_idle a s p, put_idle b s q, put_idle c s r)

    default_idle :
        (type : String) (c : Condition) (s : Session P AnsibleGroup)
        → P.find_status_condition s.object.conditions type ≡ some c
        → default_status_to_unknown P type s ≡ (ok tt, s)
    unfolding default_status_to_unknown
    default_idle type c s found = ground (arith, found)

    default_conditions_idle :
        (h : GroupHealthcheckResult) (s : Session P AnsibleGroup)
        → Shows h s.object
        → default_conditions P s ≡ (ok tt, s)
    unfolding default_conditions
    default_conditions_idle h s (references, healthy, ready) = rw (
      default_idle "Healthy" (health_condition h) s healthy,
      default_idle "ReferencesValid" (references_condition h) s references,
      default_idle "Ready" (ready_condition h) s ready,
    )

    report_idle :
        (h : GroupHealthcheckResult) (s : Session P AnsibleGroup)
        → Shows h s.object
        → report P h s ≡ (ok done, s)
    report_idle h s (references, healthy, ready) = elim (report-eq-put_three h) [
      | inl e ↦
          ap (λ m. m s) e
          ∙ put_three_idle (health_condition h) (references_condition h) (ready_condition h) s
              healthy references ready
      | inr e ↦
          ap (λ m. m s) e
          ∙ put_three_idle (references_condition h) (health_condition h) (ready_condition h) s
              references healthy ready
    ]

    pub reconcile_group_idle :
        (h : GroupHealthcheckResult) (s : Session P AnsibleGroup)
        → Shows h s.object
        → Stands h s
        → reconcile_group P s ≡ (ok done, s)
    unfolding reconcile_group ensure_vars_config_map check_and_report
    reconcile_group_idle h s shows (placed, checked) = rw (
      default_conditions_idle h s shows,
      ensure_vars_idle P "AnsibleGroup" s.object.meta s.object.spec.group_vars s placed,
      checked,
      report_idle h s shows,
    )
