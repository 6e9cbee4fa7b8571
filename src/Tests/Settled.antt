-- ===== src/Tests/Settled.antt =====
-- The group `front` with a subgroup that is not there, and its variables in place.
use ansible_operator.Base.{◌≡◌, refl, true, some, [], ◌∷◌, ok, ne_of_test, string_dec}
use ansible_operator.Base.Maps.{lookup, value_at}
use ansible_operator.Api.{AnsibleGroup}
use ansible_operator.Kube.{Session, ConfigMap, done}
use ansible_operator.Kube.Memory.{memory, fetch}
use ansible_operator.Kube.Memory.Conditions.{find_condition}
use ansible_operator.Kube.Memory.Lawful.{
  memory-ConditionLaws, memory-StatusLaws, memory-FrameLaws, memory-MemberLaws,
}
use ansible_operator.Group.Health.{
  GroupHealthcheckResult, check_group_health, check_references, is_groups_array_ok,
  is_hosts_array_ok,
}
use ansible_operator.Group.Reconcile.{reconcile_group}
use ansible_operator.Group.Reconcile.Idle.{Shows, Stands}
use ansible_operator.Group.Reconcile.Convergence.{reconcile_group_converges}
use ansible_operator.Tests.Data.{front, prod, session, meta}

abbrev with_subgroup : AnsibleGroup
with_subgroup = record front { spec = record front.spec { groups = record { name = "db" } ∷ [] } }

abbrev front_vars : ConfigMap
front_vars = record {
  meta = record (meta "front-vars") {
    owner_references =
        record { kind = "AnsibleGroup"; name = "front"; uid = "front"; controller = true } ∷ [];
  };
  data_map = some (("vars", "b: 2") ∷ []);
}

abbrev settled : Session memory AnsibleGroup
settled = session (record prod { config_maps = front_vars ∷ [] }) with_subgroup

-- `db` and `gone` are missing, `web` is not ready.
abbrev found : GroupHealthcheckResult
found = record {
  subgroups_not_found = record { name = "db" } ∷ [];
  subgroups_not_healthy = [];
  hosts_not_found = record { name = "gone" } ∷ [];
  hosts_not_healthy = record { name = "web" } ∷ [];
}

settled-Stands : Stands memory found settled
unfolding check_group_health check_references is_groups_array_ok is_hosts_array_ok fetch lookup
    value_at string_dec find_condition
settled-Stands = ((refl, refl), refl)

reconcile_group_converges_example :
    ((reconcile_group memory settled).0 ≡ ok done)
    × Shows memory found (reconcile_group memory settled).1.object
    × (reconcile_group memory (reconcile_group memory settled).1
        ≡ (ok done, (reconcile_group memory settled).1))
reconcile_group_converges_example =
    reconcile_group_converges memory memory-ConditionLaws memory-StatusLaws memory-FrameLaws
      memory-MemberLaws settled found (λ x u same. refl) (ne_of_test "db" "front" refl, tt)
      settled-Stands
