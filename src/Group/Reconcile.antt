-- ===== src/Group/Reconcile.antt =====
-- `Reconcile` of the group controller.
pub mod Reporting
pub mod Outcome
pub mod Idle
pub mod Settling
pub mod Convergence
pub mod Step
pub mod Cascade
pub mod Calm
pub mod Within
use ansible_operator.Base.{
  ℕ, String, ◌<>◌, Bool, true, false, ◌&&◌, ◌||◌, not, List, [], ◌∷◌, nonempty, Error, not_found,
  other, Result, ok, err, panic, wrap_text, Exec, pure, fail, with_error, handling, ◌>>=◌, ◌>>◌,
  if◌then◌else◌,
}
use ansible_operator.Api.{
  ObjectKey, LocalObjectReference, AnsibleGroup, ConditionStatus, condition_true, condition_false,
}
use ansible_operator.Kube.{Platform, Session, ReconcileResult, done, read, this}
use ansible_operator.VarsConfigMap.{ensure_vars}
use ansible_operator.Group.Status.{set_condition, default_status_to_unknown}
use ansible_operator.Group.Health.{GroupHealthcheckResult, check_group_health}

unfoldable pub object_reference_list_to_string : List LocalObjectReference → String
object_reference_list_to_string [] = ""
object_reference_list_to_string (ref ∷ refs) =
    ref.name <> ("," <> object_reference_list_to_string refs)

abbrev pub refs_invalid : GroupHealthcheckResult → Bool
refs_invalid h = nonempty h.subgroups_not_found || nonempty h.hosts_not_found

abbrev pub objects_unhealthy : GroupHealthcheckResult → Bool
objects_unhealthy h = nonempty h.subgroups_not_healthy || nonempty h.hosts_not_healthy

module _ (P : Platform) where
  -- a condition of the group, with the error text that `Reconcile` adds
  unfoldable pub put_condition :
      String → ConditionStatus → String → String → Exec (Session P AnsibleGroup) (Unit {0})
  put_condition type status reason message =
      with_error (wrap_text "failed to set condition on AnsibleGroup")
        (set_condition P type status reason message)

  unfoldable pub default_conditions : Exec (Session P AnsibleGroup) (Unit {0})
  default_conditions = do
    with_error (wrap_text "failed to set condition on AnsibleGroup")
        (default_status_to_unknown P "Healthy")
    with_error (wrap_text "failed to set condition on AnsibleGroup")
        (default_status_to_unknown P "ReferencesValid")
    with_error (wrap_text "failed to set condition on AnsibleGroup")
        (default_status_to_unknown P "Ready")

  -- `Ready` is set to false before the error is returned.
  unfoldable pub give_up : {A : Type 0} → String → Error → Exec (Session P AnsibleGroup) A
  give_up text e = do put_condition "Ready" condition_false "Error" (text <> e.message); fail e

  unfoldable pub report_references :
      GroupHealthcheckResult → Exec (Session P AnsibleGroup) (Unit {0})
  report_references h =
      if refs_invalid h
      then put_condition "ReferencesValid" condition_false "InvalidReferences" (
          "One or more references are invalid: Missing Hosts: "
          <> (object_reference_list_to_string h.hosts_not_found
              <> (";Missing Subgroups: "
                  <> (object_reference_list_to_string h.subgroups_not_found <> ";"))))
      else put_condition "ReferencesValid" condition_true "AllValid"
          "All referenced hosts and subgroups are valid"

  unfoldable pub report_health : GroupHealthcheckResult → Exec (Session P AnsibleGroup) (Unit {0})
  report_health h =
      if objects_unhealthy h
      then put_condition "Healthy" condition_false "UnhealthyReferences" (
          "One or more referenced objects are unhealthy: Unhealthy Hosts: "
          <> (object_reference_list_to_string h.hosts_not_healthy
              <> (";Unhealthy Subgroups: "
                  <> (object_reference_list_to_string h.subgroups_not_healthy <> ";"))))
      else put_condition "Healthy" condition_true "AllHealthy"
          "All referenced hosts and subgroups are healthy"

  -- from `refsInvalid := …` to the end
  unfoldable pub report : GroupHealthcheckResult → Exec (Session P AnsibleGroup) ReconcileResult
  report h =
      if not (refs_invalid h) && not (objects_unhealthy h)
      then (do
        put_condition "Healthy" condition_true "AllHealthy"
            "All referenced hosts and subgroups are healthy"
        put_condition "ReferencesValid" condition_true "AllValid"
            "All referenced hosts and subgroups are valid"
        put_condition "Ready" condition_true "Ready" "AnsibleGroup is ready"
        pure done)
      else (do
        report_references h
        report_health h
        put_condition "Ready" condition_false "UnhealthyOrInvalidReferences"
            "One or more references are invalid or unhealthy."
        pure done)

  unfoldable pub ensure_vars_config_map : Exec (Session P AnsibleGroup) (Unit {0})
  ensure_vars_config_map = do
    group ← this
    ensure_vars P "AnsibleGroup" group.meta group.spec.group_vars

  -- from the call of `checkGroupHealth` on
  unfoldable pub check_and_report : AnsibleGroup → Exec (Session P AnsibleGroup) ReconcileResult
  check_and_report group = do
    h ← handling (read (check_group_health P group)) (give_up "Failed to check group health: ")
    report h

  -- `Reconcile` on a group that was fetched
  unfoldable pub reconcile_group : Exec (Session P AnsibleGroup) ReconcileResult
  reconcile_group = do
    default_conditions
    handling ensure_vars_config_map (give_up "Failed to ensure vars ConfigMap: ")
    group ← this
    check_and_report group

  unfoldable pub reconcile : ObjectKey → Exec (Session P AnsibleGroup) ReconcileResult
  reconcile key s = elim (P.get_group key s.server) [
    | ok group ↦ reconcile_group (record s { object = group })
    | err e ↦ elim e.reason [ not_found ↦ (ok done, s) | other ↦ (err e, s) ]
    | panic ↦ (panic, s)
  ]
