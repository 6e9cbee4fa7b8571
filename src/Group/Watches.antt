-- ===== src/Group/Watches.antt =====
-- The index functions of `SetupWithManager` and the requests that a change of a host or a subgroup
-- causes.
pub mod Laws
use ansible_operator.Base.{String, List, [], ◌∷◌, ok, err, panic}
use ansible_operator.Api.{ObjectKey, ObjectMeta, object_key, LocalObjectReference, AnsibleGroup}
use ansible_operator.Kube.{Platform}

abbrev pub reference_names : List LocalObjectReference → List String
reference_names [] = []
reference_names (ref ∷ refs) = ref.name ∷ reference_names refs

-- `groupsIndex` and `hostIndex`
unfoldable pub groups_index : AnsibleGroup → List String
groups_index group = reference_names group.spec.groups

unfoldable pub host_index : AnsibleGroup → List String
host_index group = reference_names group.spec.hosts

abbrev pub group_keys : List AnsibleGroup → List ObjectKey
group_keys [] = []
group_keys (group ∷ groups) = object_key group.meta ∷ group_keys groups

module _ (P : Platform) where
  -- An error of the list call yields no request.
  unfoldable pub groups_matching_indexer :
      (AnsibleGroup → List String) → ObjectMeta → P.State → List ObjectKey
  groups_matching_indexer index object s =
      elim (P.list_groups_by index object.name object.namespace s) [
        | ok groups ↦ group_keys groups
        | err e ↦ []
        | panic ↦ []
      ]

  unfoldable pub requests_for_group_change : ObjectMeta → P.State → List ObjectKey
  requests_for_group_change = groups_matching_indexer groups_index

  unfoldable pub requests_for_host_change : ObjectMeta → P.State → List ObjectKey
  requests_for_host_change = groups_matching_indexer host_index
