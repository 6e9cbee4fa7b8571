-- ===== src/Group/Reconcile/Calm.antt =====
-- A reconcile of a group does not panic.
use ansible_operator.Base.{
  String, ◌<>◌, Option-cases, inl, inr, Result, arith, List, [], ◌∷◌, ◌++◌, Error,
}
use ansible_operator.Base.Calm.{NoPanic, Calm, calm_rules}
use ansible_operator.Api.{
  ObjectKey, LocalObjectReference, AnsibleGroup, Condition, ConditionStatus, condition_unknown,
}
use ansible_operator.Kube.{Platform}
use ansible_operator.Kube.Calm.{NeverPanics, call_rules}
use ansible_operator.VarsConfigMap.Calm.{ensure_vars-Calm}
use ansible_operator.Group.Status.{push_status, set_condition, default_status_to_unknown}
use ansible_operator.Group.Health.{
  GroupHealthcheckResult, check_group_health, check_references, is_groups_array_ok,
  is_hosts_array_ok, Checked, nothing_found, group_conditions, host_conditions,
}
use ansible_operator.Group.Reconcile.{
  put_condition, report_references, report_health, report, reconcile_group, check_and_report,
  default_conditions, give_up, ensure_vars_config_map,
}

module _ (P : Platform) (never : NeverPanics P) where
  push_status-Calm : (g : AnsibleGroup) → Calm (push_status P g)
  unfolding push_status
  push_status-Calm g = search (calm_rules, call_rules, never.update_group_status)

  set_condition-Calm :
      (type : String) (status : ConditionStatus) (reason message : String)
      → Calm (set_condition P type status reason message)
  unfolding set_condition
  set_condition-Calm type status reason message = search (calm_rules, call_rules, push_status-Calm)

  default_status_to_unknown-Calm : (type : String) → Calm (default_status_to_unknown P type)
  unfolding default_status_to_unknown
  default_status_to_unknown-Calm type = record {
    at = λ s. elim (Option-cases (P.find_status_condition s.object.conditions type)) [
      | inl missing ↦ ground (
        arith,
        (set_condition-Calm type condition_unknown "ReconcileStarted"
              ("AnsibleGroup is initializing: " <> (type <> " condition not set"))).at
            s,
      )
      | inr (c, found) ↦ ground (arith, found)
    ];
  }

  put_condition-Calm :
      (type : String) (status : ConditionStatus) (reason message : String)
      → Calm (put_condition P type status reason message)
  unfolding put_condition
  put_condition-Calm type status reason message = search (calm_rules, set_condition-Calm)

  give_up-Calm : {A : Type 0} (text : String) (e : Error) → Calm (give_up P {A = A} text e)
  unfolding give_up
  give_up-Calm text e = search (calm_rules, put_condition-Calm)

  report-Calm : (h : GroupHealthcheckResult) → Calm (report P h)
  unfolding report report_references report_health
  report-Calm h = search (calm_rules, put_condition-Calm) depth 12

  default_conditions-Calm : Calm (default_conditions P)
  unfolding default_conditions
  default_conditions-Calm = search (calm_rules, default_status_to_unknown-Calm)

  check_references-NoPanic :
      (get : ObjectKey → P.State → Result (List Condition)) (namespace : String) (s : P.State)
      → ((k : ObjectKey) → NoPanic (get k s))
      → (refs : List LocalObjectReference) (found : Checked)
      → NoPanic (check_references P get namespace s refs found)
  unfolding check_references
  check_references-NoPanic get namespace s c [] found = tt
  check_references-NoPanic get namespace s c (ref ∷ refs) found = ground (
    arith,
    c (record { namespace = namespace; name = ref.name }),
    check_references-NoPanic get namespace s c refs found,
    check_references-NoPanic get namespace s c refs
        (record found { unhealthy = found.unhealthy ++ (ref ∷ []) }),
    check_references-NoPanic get namespace s c refs
        (record found { missing = found.missing ++ (ref ∷ []) }),
  )

  check_group_health-NoPanic : (g : AnsibleGroup) (s : P.State) → NoPanic (check_group_health P g s)
  unfolding check_group_health is_groups_array_ok is_hosts_array_ok
  check_group_health-NoPanic g s = ground (
    arith,
    check_references-NoPanic (group_conditions P) g.meta.namespace s
        (λ k. ground (arith, never.get_group k s)) g.spec.groups (nothing_found P),
    check_references-NoPanic (host_conditions P) g.meta.namespace s
        (λ k. ground (arith, never.get_host k s)) g.spec.hosts (nothing_found P),
  )

  check_and_report-Calm : (g : AnsibleGroup) → Calm (check_and_report P g)
  unfolding check_and_report
  check_and_report-Calm g =
      search (calm_rules, call_rules, check_group_health-NoPanic, give_up-Calm, report-Calm)

  ensure_vars_config_map-Calm : Calm (ensure_vars_config_map P)
  unfolding ensure_vars_config_map
  ensure_vars_config_map-Calm = search (calm_rules, call_rules, ensure_vars-Calm)

  -- If no call of the API server panics, a reconcile of a group does not: from every state it
  -- returns a result or an error.
  pub reconcile_group-Calm : Calm (reconcile_group P)
  unfolding reconcile_group
  reconcile_group-Calm = search (
    calm_rules, call_rules, default_conditions-Calm, ensure_vars_config_map-Calm, give_up-Calm,
    check_and_report-Calm,
  )
