-- ===== src/ReconcileJob/Inventory/Content.antt =====
-- `constructInventoryContent` up to the rendering. Maps are iterated by their sorted keys. A host
-- without `privilege` is a nil dereference in `mapAnsibleHost`.
use ansible_operator.Base.{
  ℕ, String, ◌<>◌, Bool, none, some, List, [], ◌∷◌, Result, ok, err, panic, errorf, wrap, map_error,
}
use ansible_operator.Base.Maps.{Map, keys, lookup, insert}
use ansible_operator.Base.Sorting.{sorted}
use ansible_operator.Api.{LocalObjectReference, AnsibleHost, AnsibleGroup}

pub record InventoryContentGroup : Type 0 where
  pub name : String
  pub subgroups : List String
  pub hosts : List String

pub record InventoryContentHost : Type 0 where
  pub kubernetes_name : String
  pub inventory_name : String
  pub hostname : String
  pub port : ℕ
  pub username : String
  pub become : Bool

pub record InventoryContent : Type 0 where
  pub groups : List InventoryContentGroup
  pub hosts : List InventoryContentHost

unfoldable pub map_ansible_host : AnsibleHost → Result InventoryContentHost
map_ansible_host host = elim host.spec.privilege [
  | none ↦ panic
  | some privilege ↦ ok (record {
    kubernetes_name = host.meta.name;
    inventory_name = host.spec.ansible_name;
    hostname = host.spec.connection.host;
    port = host.spec.connection.port;
    username = host.spec.connection.user;
    become = privilege.become;
  })
]

unfoldable pub map_member_group : String → Map AnsibleGroup → Result String
map_member_group key groups = elim (lookup key groups) [
  | none ↦ err (errorf ("unresolved child group reference " <> key))
  | some group ↦ ok group.spec.ansible_name
]

unfoldable pub map_member_host : String → Map AnsibleHost → Result String
map_member_host key hosts = elim (lookup key hosts) [
  | none ↦ err (errorf ("unresolved host reference " <> key))
  | some host ↦ ok host.spec.ansible_name
]

module _ {A B : Type 0} where
  -- a loop that appends the image of each item and stops at the first error
  unfoldable pub map_each : (A → Result B) → List A → Result (List B)
  map_each f [] = ok []
  map_each f (x ∷ xs) = elim (f x) [
    | ok y ↦ elim (map_each f xs) [ ok ys ↦ ok (y ∷ ys) | err e ↦ err e | panic ↦ panic ]
    | err e ↦ err e
    | panic ↦ panic
  ]

-- `hostMap[hostName]`, of a key of the map; a missing key would give a host without `privilege`
unfoldable pub host_entry : Map AnsibleHost → String → Result InventoryContentHost
unfolding map_ansible_host
host_entry hosts name = elim (lookup name hosts) [
  | none ↦ panic
  | some host ↦ map_ansible_host host
]

module _ (hosts : Map AnsibleHost) (groups : Map AnsibleGroup) where
  abbrev pub subgroup_name : AnsibleGroup → LocalObjectReference → Result String
  subgroup_name group ref =
      map_error
        (wrap (
          "failed to construct inventory at group "
          <> (group.meta.name <> (" for subgroup " <> ref.name))))
        (map_member_group ref.name groups)

  abbrev pub host_name : AnsibleGroup → LocalObjectReference → Result String
  host_name group ref =
      map_error
        (wrap (
          "failed to construct inventory at group "
          <> (group.meta.name <> (" for host " <> ref.name))))
        (map_member_host ref.name hosts)

  unfoldable pub group_content : AnsibleGroup → Result InventoryContentGroup
  unfolding map_each map_member_group map_member_host
  group_content group = elim (map_each (subgroup_name group) group.spec.groups) [
    | ok subgroups ↦ elim (map_each (host_name group) group.spec.hosts) [
      | ok members ↦
          ok (record { name = group.spec.ansible_name; subgroups = subgroups; hosts = members })
      | err e ↦ err e
      | panic ↦ panic
    ]
    | err e ↦ err e
    | panic ↦ panic
  ]

  abbrev empty_group : InventoryContentGroup
  empty_group = record { name = ""; subgroups = []; hosts = [] }

  -- `groupMap[groupName]`, of a key of the map; a missing key would give the zero group
  unfoldable pub group_entry : String → Result InventoryContentGroup
  unfolding group_content
  group_entry name = elim (lookup name groups) [
    | none ↦ ok empty_group
    | some group ↦ group_content group
  ]

  unfoldable pub inventory_content : Result InventoryContent
  unfolding map_each host_entry group_entry sorted
  inventory_content = elim (map_each (host_entry hosts) (sorted (keys hosts))) [
    | ok host_entries ↦ elim (map_each group_entry (sorted (keys groups))) [
      | ok group_entries ↦ ok (record { groups = group_entries; hosts = host_entries })
      | err e ↦ err e
      | panic ↦ panic
    ]
    | err e ↦ err e
    | panic ↦ panic
  ]

-- the loops of `getAnsibleHostsInNamespace` and `getAnsibleGroupsInNamespace`
unfoldable pub hosts_by_name : List AnsibleHost → Map AnsibleHost → Map AnsibleHost
hosts_by_name [] m = m
hosts_by_name (host ∷ hosts) m = hosts_by_name hosts (insert host.meta.name host m)

unfoldable pub groups_by_name : List AnsibleGroup → Map AnsibleGroup → Map AnsibleGroup
groups_by_name [] m = m
groups_by_name (group ∷ groups) m = groups_by_name groups (insert group.meta.name group m)
