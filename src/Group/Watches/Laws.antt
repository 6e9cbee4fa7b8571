-- ===== src/Group/Watches/Laws.antt =====
-- The groups that a change of a host or of a group reaches.
use ansible_operator.Base.{
  String, ◌≡◌, refl, ap, ◌∙◌, Bool, true, false, List, [], ◌∷◌, arith, ok, contains, keep, keep_ext,
  if◌then◌else◌, ◌==◌,
}
use mathlib.Core.List.{append-nil}
use ansible_operator.Api.{ObjectMeta, object_key, LocalObjectReference, AnsibleGroup}
use ansible_operator.Kube.{Platform}
use ansible_operator.Kube.Laws.{IndexLaws}
use ansible_operator.Manager.{ansible_host, ansible_group, requests}
use ansible_operator.Group.Watches.{
  reference_names, groups_index, host_index, group_keys, groups_matching_indexer,
  requests_for_group_change, requests_for_host_change,
}
use ansible_operator.Group.Setup.{registration}

-- One of the references is to this name.
abbrev pub refers : String → List LocalObjectReference → Bool
refers name [] = false
refers name (ref ∷ refs) = if ref.name == name then true else refers name refs

contains-reference_names :
    (name : String) (refs : List LocalObjectReference)
    → contains name (reference_names refs) ≡ refers name refs
contains-reference_names name [] = refl
contains-reference_names name (ref ∷ refs) = rw (contains-reference_names name refs)

module _ (P : Platform) (laws : IndexLaws P) (object : ObjectMeta) (s : P.State)
    (all : List AnsibleGroup) (listed : P.list_groups object.namespace s ≡ ok all) where
  matching :
      (refs : AnsibleGroup → List LocalObjectReference)
      → groups_matching_indexer P (λ g. reference_names (refs g)) object s
        ≡ group_keys (keep (λ g. refers object.name (refs g)) all)
  unfolding groups_matching_indexer
  matching refs = ground (
    arith,
    laws.groups_by (λ g. reference_names (refs g)) object.name object.namespace s all listed,
    keep_ext (λ g. contains object.name (reference_names (refs g)))
        (λ g. refers object.name (refs g)) (λ g. contains-reference_names object.name (refs g)) all,
  )

  -- Under the law of indexes, where the server lists the groups `all` of the namespace of a changed
  -- object: the group controller is asked to reconcile, for a change of a host, the groups whose spec
  -- has a reference to the host's name among its hosts, and for a change of a group, the group itself
  -- and those that have a reference to its name among their groups; each in the order of the list,
  -- and no others.
  pub group_requests :
      (requests P (registration P) ansible_host object s
        ≡ group_keys (keep (λ g. refers object.name g.spec.hosts) all))
      × (requests P (registration P) ansible_group object s
          ≡ object_key object ∷ group_keys (keep (λ g. refers object.name g.spec.groups) all))
  unfolding registration requests_for_host_change requests_for_group_change groups_index host_index
  group_requests = (
    append-nil _ ∙ matching (λ g. g.spec.hosts),
    ap (λ l. object_key object ∷ l) (append-nil _ ∙ matching (λ g. g.spec.groups)),
  )
