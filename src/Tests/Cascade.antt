-- ===== src/Tests/Cascade.antt =====
-- The group `all`, with the subgroup `front`, whose host `web` is ready.
use ansible_operator.Base.{
  ◌<>◌, ◌≡◌, ap, refl, true, some, [], ◌∷◌, All, ok, ne_of_test, string_dec,
}
use mathlib.Core.List.{Memᴰ}
use ansible_operator.Base.Maps.{lookup, value_at}
use ansible_operator.Api.{AnsibleGroup, AnsibleHost, condition_true, object_key, ObjectKey}
use ansible_operator.Kube.{ConfigMap, done}
use ansible_operator.Kube.Memory.{Memory, memory, fetch}
use ansible_operator.Kube.Memory.Conditions.{find_condition}
use ansible_operator.Kube.Memory.Lawful.{
  memory-ConditionLaws, memory-StatusLaws, memory-FrameLaws, memory-MemberLaws,
}
use ansible_operator.Group.Reconcile.Step.{Prepared, ReadyGroup}
use ansible_operator.Group.Reconcile.Cascade.{IsOrdered, reconcile_all, reconcile_all_ready}
use ansible_operator.Tests.Data.{front, web, prod, meta}

abbrev web_ready : AnsibleHost
web_ready = record web {
  conditions =
      record { type = "Ready"; status = condition_true; reason = "Ready"; message = "ready" } ∷ [];
}

abbrev inner : AnsibleGroup
inner = record front { spec = record front.spec { hosts = record { name = "web" } ∷ [] } }

abbrev outer : AnsibleGroup
outer = record {
  meta = meta "all";
  spec = record {
    ansible_name = "everything";
    hosts = [];
    groups = record { name = "front" } ∷ [];
    group_vars = "c: 3";
  };
  conditions = [];
}

abbrev vars_of : AnsibleGroup → ConfigMap
vars_of g = record {
  meta = record (meta (g.meta.name <> "-vars")) {
    owner_references =
        record { kind = "AnsibleGroup"; name = g.meta.name; uid = g.meta.uid; controller = true }
        ∷ [];
  };
  data_map = some (("vars", g.spec.group_vars) ∷ []);
}

abbrev tree : Memory
tree = record prod {
  hosts = web_ready ∷ [];
  groups = outer ∷ inner ∷ [];
  config_maps = vars_of inner ∷ vars_of outer ∷ [];
}

inner-Prepared : Prepared memory inner tree
unfolding fetch lookup value_at string_dec find_condition
inner-Prepared = record {
  fetched = refl;
  placed = (refl, refl);
  hosts = (refl, tt);
  accepted = λ x u same. refl;
}

outer-Prepared : Prepared memory outer tree
unfolding fetch lookup value_at string_dec find_condition
outer-Prepared = record {
  fetched = refl;
  placed = (refl, refl);
  hosts = tt;
  accepted = λ x u same. refl;
}

tree-IsOrdered : IsOrdered [] (inner ∷ outer ∷ [])
tree-IsOrdered = (
  tt,
  λ m. elim m [ ],
  (
    (Memᴰ.head refl, tt),
    λ m. elim m [
      | Memᴰ.head e ↦ ne_of_test "all" "front" refl (ap (λ (k : ObjectKey). k.name) e)
      | Memᴰ.tail n ↦ elim n [ ]
    ],
    tt,
  ),
)

reconcile_all_ready_example :
    All (λ r. r ≡ ok done) (reconcile_all memory front (inner ∷ outer ∷ []) tree).0
    × All
        (λ (g : AnsibleGroup).
          ReadyGroup memory
            (object_key g.meta)
            (reconcile_all memory front (inner ∷ outer ∷ []) tree).1)
        (inner ∷ outer ∷ [])
    × All
        (λ (k : ObjectKey).
          ReadyGroup memory k (reconcile_all memory front (inner ∷ outer ∷ []) tree).1)
        []
reconcile_all_ready_example =
    reconcile_all_ready memory memory-ConditionLaws memory-StatusLaws memory-FrameLaws
      memory-MemberLaws front [] (inner ∷ outer ∷ []) tree tree-IsOrdered tt
      (inner-Prepared, (outer-Prepared, tt))
