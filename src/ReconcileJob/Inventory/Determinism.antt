-- ===== src/ReconcileJob/Inventory/Determinism.antt =====
-- The text of the inventory does not depend on the order in which Go iterates over its maps.
use mathlib.Core.List.{Perm}
use mathlib.Core.Path.{fun_ext}
use ansible_operator.Base.{String, ◌≡◌, ap, List, arith, Result, Option-cases, inl, inr}
use ansible_operator.Base.Maps.{Map, keys, lookup}
use ansible_operator.Base.Sorting.{sorted, sorted_of_perm}
use ansible_operator.Api.{LocalObjectReference, AnsibleHost, AnsibleGroup}
use ansible_operator.ReconcileJob.Inventory.Content.{
  map_each, map_member_group, map_member_host, subgroup_name, host_name, host_entry, group_content,
  group_entry, inventory_content,
}
use ansible_operator.ReconcileJob.Inventory.Ensure.{construct_inventory_content}

-- Two lists of entries that stand for one map: the same keys in another order, the same values.
pub record SameMap {V : Type 0} (m n : Map V) : Type 0 where
  pub same_keys : Perm (keys m) (keys n)
  pub same_values : (k : String) → lookup k m ≡ lookup k n

map_each-ext :
    {A B : Type 0} (f g : A → Result B)
    → ((x : A) → f x ≡ g x)
    → (xs : List A) → map_each f xs ≡ map_each g xs
map_each-ext f g h xs = ap (λ k. map_each k xs) (fun_ext h)

module _ (hosts hosts' : Map AnsibleHost) (groups groups' : Map AnsibleGroup) where
  module _ (h : SameMap hosts hosts') (g : SameMap groups groups') where
    host_entry-same : (name : String) → host_entry hosts name ≡ host_entry hosts' name
    unfolding host_entry
    host_entry-same name = ground (arith, h.same_values name)

    subgroup_name-same :
        (group : AnsibleGroup) (ref : LocalObjectReference)
        → subgroup_name hosts groups group ref ≡ subgroup_name hosts' groups' group ref
    unfolding map_member_group
    subgroup_name-same group ref = ground (arith, g.same_values ref.name)

    host_name-same :
        (group : AnsibleGroup) (ref : LocalObjectReference)
        → host_name hosts groups group ref ≡ host_name hosts' groups' group ref
    unfolding map_member_host
    host_name-same group ref = ground (arith, h.same_values ref.name)

    group_content-same :
        (group : AnsibleGroup)
        → group_content hosts groups group ≡ group_content hosts' groups' group
    unfolding group_content
    group_content-same group = ground (
      arith,
      map_each-ext (subgroup_name hosts groups group) (subgroup_name hosts' groups' group)
          (subgroup_name-same group) group.spec.groups,
      map_each-ext (host_name hosts groups group) (host_name hosts' groups' group)
          (host_name-same group) group.spec.hosts,
    )

    group_entry-same :
        (name : String) → group_entry hosts groups name ≡ group_entry hosts' groups' name
    unfolding group_entry
    group_entry-same name = elim (Option-cases (lookup name groups)) [
      | inl missing ↦ ground (arith, missing, g.same_values name)
      | inr (group, found) ↦ ground (arith, found, g.same_values name, group_content-same group)
    ]

    inventory_content-same : inventory_content hosts groups ≡ inventory_content hosts' groups'
    unfolding inventory_content
    inventory_content-same = ground (
      arith,
      sorted_of_perm h.same_keys,
      sorted_of_perm g.same_keys,
      map_each-ext (host_entry hosts) (host_entry hosts') host_entry-same (sorted (keys hosts)),
      map_each-ext (group_entry hosts groups) (group_entry hosts' groups') group_entry-same
          (sorted (keys groups)),
    )

    -- For any two lists that stand for one map of hosts, and any two that stand for one map of groups,
    -- `constructInventoryContent` has the same outcome: the same text, or the same error, or a panic.
    pub construct_inventory_content_order :
        construct_inventory_content hosts groups ≡ construct_inventory_content hosts' groups'
    unfolding construct_inventory_content
    construct_inventory_content_order = ground (arith, inventory_content-same)
