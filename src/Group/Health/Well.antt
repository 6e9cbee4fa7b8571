-- ===== src/Group/Health/Well.antt =====
-- A group whose members are all there and ready is found well.
use ansible_operator.Base.{
  ◌≡◌, refl, true, arith, List, [], ◌∷◌, All, Result, ok, err, panic, Result-cases, is_ok, is_err,
  is_panic, String,
}
use ansible_operator.Api.{ObjectKey, LocalObjectReference, AnsibleGroup, Condition}
use ansible_operator.Kube.{Platform}
use ansible_operator.Group.Health.{
  GroupHealthcheckResult, Checked, is_ready, group_conditions, host_conditions, check_references,
  is_groups_array_ok, is_hosts_array_ok, check_group_health, nothing_found,
}

abbrev pub well : GroupHealthcheckResult
well = record {
  subgroups_not_found = [];
  subgroups_not_healthy = [];
  hosts_not_found = [];
  hosts_not_healthy = [];
}

-- what a reference of the group names
abbrev pub member_key : AnsibleGroup → LocalObjectReference → ObjectKey
member_key g ref = record { namespace = g.meta.namespace; name = ref.name }

module _ (P : Platform) where
  -- The server answers with an object that is ready.
  abbrev pub IsReadyAnswer : Result (List Condition) → Type 0
  IsReadyAnswer (ok conditions) = is_ready P conditions ≡ true
  IsReadyAnswer (err e) = ⊥
  IsReadyAnswer panic = ⊥

  check_references_ready :
      (get : ObjectKey → P.State → Result (List Condition)) (namespace : String) (s : P.State)
      (refs : List LocalObjectReference) (found : Checked)
      → All
          (λ (ref : LocalObjectReference).
            IsReadyAnswer (get (record { namespace = namespace; name = ref.name }) s))
          refs
      → check_references P get namespace s refs found ≡ ok found
  unfolding check_references
  check_references_ready get namespace s [] found _ = refl
  check_references_ready get namespace s (ref ∷ refs) found (ready, rest) =
      elim (Result-cases (get (record { namespace = namespace; name = ref.name }) s)) [
        | is_ok conditions got ↦
            ground
              (arith, got, rw got at ready, check_references_ready get namespace s refs found rest)
        | is_err e got ↦ absurd (rw got at ready)
        | is_panic got ↦ absurd (rw got at ready)
      ]

  pub check_group_health-well :
      (g : AnsibleGroup) (s : P.State)
      → All (λ ref. IsReadyAnswer (group_conditions P (member_key g ref) s)) g.spec.groups
      → All (λ ref. IsReadyAnswer (host_conditions P (member_key g ref) s)) g.spec.hosts
      → check_group_health P g s ≡ ok well
  unfolding check_group_health is_groups_array_ok is_hosts_array_ok
  check_group_health-well g s groups hosts =
      let p =
        check_references_ready (group_conditions P) g.meta.namespace s g.spec.groups
          (nothing_found P) groups in
      let q =
        check_references_ready (host_conditions P) g.meta.namespace s g.spec.hosts (nothing_found P)
          hosts in
      ground (arith, p, q)
