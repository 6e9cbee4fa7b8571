-- ===== src/Group/Health/Frame.antt =====
-- The health of a group does not depend on its own status, unless it is among its own subgroups.
use ansible_operator.Base.{String, ◌≡◌, ◌≢◌, refl, ap, List, [], ◌∷◌, All, Result, arith}
use ansible_operator.Api.{ObjectKey, LocalObjectReference, AnsibleGroup, Condition}
use ansible_operator.Kube.{Platform}
use ansible_operator.Kube.Laws.{MemberLaws}
use ansible_operator.Group.Health.{
  Checked, group_conditions, host_conditions, check_references, is_groups_array_ok,
  is_hosts_array_ok, check_group_health, nothing_found,
}

-- None of the subgroups has the name of the group.
abbrev pub NotOwnSubgroup : AnsibleGroup → Type 0
NotOwnSubgroup group =
    All (λ (ref : LocalObjectReference). ref.name ≢ group.meta.name) group.spec.groups

module _ (P : Platform) where
  -- The loop sees nothing of the server but the answers to its references.
  check_references-cong :
      (get : ObjectKey → P.State → Result (List Condition)) (namespace : String) (s t : P.State)
      (refs : List LocalObjectReference)
      → All
          (λ (ref : LocalObjectReference).
            get (record { namespace = namespace; name = ref.name }) s
            ≡ get (record { namespace = namespace; name = ref.name }) t)
          refs
      → (found : Checked)
      → check_references P get namespace s refs found
        ≡ check_references P get namespace t refs found
  unfolding check_references
  check_references-cong get namespace s t [] _ found = refl
  check_references-cong get namespace s t (ref ∷ refs) (same, rest) found =
      grind (arith, same, check_references-cong get namespace s t refs rest)

  module _ (laws : MemberLaws P) (x : AnsibleGroup) (s : P.State) where
    subgroups_same :
        (namespace : String) (refs : List LocalObjectReference)
        → All (λ (ref : LocalObjectReference). ref.name ≢ x.meta.name) refs
        → All
            (λ (ref : LocalObjectReference).
              group_conditions P
                (record { namespace = namespace; name = ref.name })
                (P.update_group_status x s).1
              ≡ group_conditions P (record { namespace = namespace; name = ref.name }) s)
            refs
    subgroups_same namespace [] _ = tt
    subgroups_same namespace (ref ∷ refs) (ne, rest) = (
      rw (
        group_conditions,
        laws.get_group-group_status_ne (record { namespace = namespace; name = ref.name }) x s
            (λ e. ne (ap (λ (k : ObjectKey). k.name) e)),
      ),
      subgroups_same namespace refs rest,
    )

    hosts_same :
        (namespace : String) (refs : List LocalObjectReference)
        → All
            (λ (ref : LocalObjectReference).
              host_conditions P
                (record { namespace = namespace; name = ref.name })
                (P.update_group_status x s).1
              ≡ host_conditions P (record { namespace = namespace; name = ref.name }) s)
            refs
    hosts_same namespace [] = tt
    hosts_same namespace (ref ∷ refs) = (
      rw (
        host_conditions,
        laws.get_host-group_status (record { namespace = namespace; name = ref.name }) x s,
      ),
      hosts_same namespace refs,
    )

    -- The status of `x` is of no matter to the health of a group by its name.
    pub check_group_health-update_status :
        (g : AnsibleGroup)
        → x.meta ≡ g.meta
        → NotOwnSubgroup g
        → check_group_health P g (P.update_group_status x s).1 ≡ check_group_health P g s
    unfolding check_group_health is_groups_array_ok is_hosts_array_ok
    check_group_health-update_status g same apart =
        let groups =
          check_references-cong (group_conditions P) g.meta.namespace (P.update_group_status x s).1
            s g.spec.groups (subgroups_same g.meta.namespace g.spec.groups (rw same apart))
            (nothing_found P) in
        let hosts =
          check_references-cong (host_conditions P) g.meta.namespace (P.update_group_status x s).1 s
            g.spec.hosts (hosts_same g.meta.namespace g.spec.hosts) (nothing_found P) in
        ground (arith, groups, hosts)
