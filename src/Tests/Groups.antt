-- ===== src/Tests/Groups.antt =====
-- The group controller and the vars config maps.
use ansible_operator.Base.{◌≡◌, refl, true, false, [], ◌∷◌, ok, err, succeeded, errorf, string_dec}
use ansible_operator.Base.Maps.{lookup, insert, value_at, assign}
use ansible_operator.Api.{AnsibleGroup}
use ansible_operator.Kube.{Platform, Session, done}
use ansible_operator.Kube.Memory.{memory, fetch, store, create}
use ansible_operator.Kube.Memory.Conditions.{find_condition, set_condition as set_status_condition}
use ansible_operator.Kube.Memory.Lawful.{
  memory-ConditionLaws, memory-StatusLaws, memory-ConfigMapLaws,
}
use ansible_operator.VarsConfigMap.{ensure_vars, update_vars, create_vars_config_map}
use ansible_operator.VarsConfigMap.Laws.{InPlace, ensure_vars-InPlace, ensure_vars_twice}
use ansible_operator.Group.Status.{set_condition, default_status_to_unknown, push_status}
use ansible_operator.Group.Health.{
  check_group_health, check_references, is_groups_array_ok, is_hosts_array_ok,
}
use ansible_operator.Group.Health.Laws.{
  group_answers, expected_health, check_group_health_answered, check_group_health_unanswered,
}
use ansible_operator.Group.Reconcile.{
  reconcile_group, check_and_report, default_conditions, ensure_vars_config_map, give_up,
  put_condition, report, report_health, report_references, object_reference_list_to_string,
}
use ansible_operator.Group.Reconcile.Outcome.{Reconciled, reconcile_group-Reconciled}
use ansible_operator.Tests.Data.{front, prod, session}

abbrev start : Session memory AnsibleGroup
start = session prod front

returns_done : (reconcile_group memory start).0 ≡ ok done
unfolding reconcile_group check_and_report default_conditions ensure_vars_config_map give_up
    put_condition report report_health report_references object_reference_list_to_string
    set_condition default_status_to_unknown push_status check_group_health check_references
    is_groups_array_ok is_hosts_array_ok ensure_vars update_vars create_vars_config_map fetch store
    create find_condition set_status_condition lookup insert value_at assign string_dec
returns_done = refl

reconcile_group-Reconciled_example :
    Reconciled memory memory-ConditionLaws memory-StatusLaws front
      (reconcile_group memory start).1.object
reconcile_group-Reconciled_example =
    reconcile_group-Reconciled memory memory-ConditionLaws memory-StatusLaws start done returns_done

-- A server that answers for `web`, and knows no `gone`.
answered : group_answers memory front prod ≡ true
unfolding fetch string_dec
answered = refl

check_group_health_answered_example :
    check_group_health memory front prod ≡ ok (expected_health memory front prod)
check_group_health_answered_example = check_group_health_answered memory front prod answered

-- A server that refuses to tell of groups.
abbrev forbidding : Platform
forbidding = record memory { get_group = λ k s. err (errorf "forbidden") }

abbrev parent : AnsibleGroup
parent = record front {
  spec = record front.spec { groups = record { name = "front" } ∷ []; hosts = [] };
}

check_group_health_unanswered_example :
    succeeded (check_group_health forbidding parent prod) ≡ false
check_group_health_unanswered_example = check_group_health_unanswered forbidding parent prod refl

vars_written : (ensure_vars memory "AnsibleGroup" front.meta "b: 2" start).0 ≡ ok tt
unfolding ensure_vars update_vars create_vars_config_map fetch store create lookup insert value_at
    assign string_dec
vars_written = refl

ensure_vars-InPlace_example :
    InPlace memory front.meta "b: 2"
      (ensure_vars memory "AnsibleGroup" front.meta "b: 2" start).1.server
ensure_vars-InPlace_example =
    ensure_vars-InPlace memory memory-ConfigMapLaws front.meta "b: 2" "AnsibleGroup" start
      vars_written

ensure_vars_twice_example :
    ensure_vars memory "AnsibleGroup" front.meta "b: 2"
      (ensure_vars memory "AnsibleGroup" front.meta "b: 2" start).1
    ≡ (ok tt, (ensure_vars memory "AnsibleGroup" front.meta "b: 2" start).1)
ensure_vars_twice_example =
    ensure_vars_twice memory memory-ConfigMapLaws "AnsibleGroup" front.meta "b: 2" start
      vars_written
