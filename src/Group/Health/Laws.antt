-- ===== src/Group/Health/Laws.antt =====
-- The health check against a plain reading of it: two filters over the references of the group.
use mathlib.Core.List.{append_assoc, append-nil}
use ansible_operator.Base.{
  String, ◌≡◌, Bool, true, false, ◌&&◌, not, List, [], ◌∷◌, ◌++◌, arith, keep, not_found, other,
  Result, ok, err, panic, succeeded,
}
use ansible_operator.Api.{ObjectKey, LocalObjectReference, AnsibleGroup, Condition}
use ansible_operator.Kube.{Platform}
use ansible_operator.Group.Health.{
  GroupHealthcheckResult, Checked, is_ready, group_conditions, host_conditions, check_references,
  is_groups_array_ok, is_hosts_array_ok, check_group_health, nothing_found,
}

-- The server says that there is no such object.
abbrev pub is_missing : Result (List Condition) → Bool
is_missing (ok conditions) = false
is_missing (err e) = elim e.reason [ not_found ↦ true | other ↦ false ]
is_missing panic = false

-- The server answers: with the object, or that there is none.
abbrev pub answers : Result (List Condition) → Bool
answers (ok conditions) = true
answers (err e) = is_missing (err e)
answers panic = false

module _ (P : Platform) where
  -- The object is there, and is not ready.
  abbrev pub is_unready : Result (List Condition) → Bool
  is_unready (ok conditions) = not (is_ready P conditions)
  is_unready (err e) = false
  is_unready panic = false

module _ (P : Platform) (get : ObjectKey → P.State → Result (List Condition)) (namespace : String)
    (s : P.State) where
  abbrev pub answer : LocalObjectReference → Result (List Condition)
  answer ref = get (record { namespace = namespace; name = ref.name }) s

  abbrev pub all_answer : List LocalObjectReference → Bool
  all_answer [] = true
  all_answer (ref ∷ refs) = answers (answer ref) && all_answer refs

  abbrev pub missing_references : List LocalObjectReference → List LocalObjectReference
  missing_references = keep (λ ref. is_missing (answer ref))

  abbrev pub unready_references : List LocalObjectReference → List LocalObjectReference
  unready_references = keep (λ ref. is_unready P (answer ref))

  -- If the server answers for every reference, the loop returns the two filters, after what it had.
  check_references_lem :
      (refs : List LocalObjectReference) (found : Checked)
      → all_answer refs ≡ true
      → check_references P get namespace s refs found
        ≡ ok (record {
          missing = found.missing ++ missing_references refs;
          unhealthy = found.unhealthy ++ unready_references refs;
        })
  unfolding check_references
  check_references_lem [] found h = simp append-nil
  check_references_lem (ref ∷ refs) found h = ground (
    arith,
    check_references_lem refs found,
    check_references_lem refs (record found { unhealthy = found.unhealthy ++ (ref ∷ []) }),
    check_references_lem refs (record found { missing = found.missing ++ (ref ∷ []) }),
    append_assoc found.unhealthy (ref ∷ []) (unready_references refs),
    append_assoc found.missing (ref ∷ []) (missing_references refs),
  )

  check_references_fails :
      (refs : List LocalObjectReference) (found : Checked)
      → all_answer refs ≡ false
      → succeeded (check_references P get namespace s refs found) ≡ false
  unfolding check_references
  check_references_fails [] found h = cc
  check_references_fails (ref ∷ refs) found h = ground (
    arith,
    check_references_fails refs found,
    check_references_fails refs (record found { unhealthy = found.unhealthy ++ (ref ∷ []) }),
    check_references_fails refs (record found { missing = found.missing ++ (ref ∷ []) }),
  )

module _ (P : Platform) (group : AnsibleGroup) (s : P.State) where
  -- The server answers for every reference of the group.
  abbrev pub group_answers : Bool
  group_answers =
      all_answer P (group_conditions P) group.meta.namespace s group.spec.groups
      && all_answer P (host_conditions P) group.meta.namespace s group.spec.hosts

  -- The plain reading: the references that lead nowhere, and those whose object is not ready.
  abbrev pub expected_health : GroupHealthcheckResult
  expected_health = record {
    subgroups_not_found =
        missing_references P (group_conditions P) group.meta.namespace s group.spec.groups;
    subgroups_not_healthy =
        unready_references P (group_conditions P) group.meta.namespace s group.spec.groups;
    hosts_not_found =
        missing_references P (host_conditions P) group.meta.namespace s group.spec.hosts;
    hosts_not_healthy =
        unready_references P (host_conditions P) group.meta.namespace s group.spec.hosts;
  }

  -- If the server answers for every reference of the group, with the object or that there is none,
  -- the health check returns exactly the references that lead nowhere and those whose object is not
  -- ready, in the order of the spec.
  pub check_group_health_answered :
      group_answers ≡ true → check_group_health P group s ≡ ok expected_health
  unfolding check_group_health is_groups_array_ok is_hosts_array_ok
  check_group_health_answered h = ground (
    arith,
    check_references_lem P (group_conditions P) group.meta.namespace s group.spec.groups
        (nothing_found P),
    check_references_lem P (host_conditions P) group.meta.namespace s group.spec.hosts
        (nothing_found P),
  )

  -- If the server fails to answer for some reference of the group, the health check returns no
  -- result.
  pub check_group_health_unanswered :
      group_answers ≡ false → succeeded (check_group_health P group s) ≡ false
  unfolding check_group_health is_groups_array_ok is_hosts_array_ok
  check_group_health_unanswered h = ground (
    arith,
    check_references_fails P (group_conditions P) group.meta.namespace s group.spec.groups
        (nothing_found P),
    check_references_fails P (host_conditions P) group.meta.namespace s group.spec.hosts
        (nothing_found P),
  )
