-- ===== src/Group/Health.antt =====
-- `checkGroupHealth`: which references of a group are missing, and which objects are not ready.
-- The two loops, over subgroups and over hosts, differ in the kind of object that they get.
pub mod Laws
pub mod Frame
pub mod Well
use ansible_operator.Base.{
  String, ◌<>◌, Bool, true, false, none, some, List, [], ◌∷◌, ◌++◌, Error, not_found, other, Result,
  ok, err, panic, wrap_text, map_error, if◌then◌else◌,
}
use ansible_operator.Api.{ObjectKey, LocalObjectReference, AnsibleGroup, Condition, is_true}
use ansible_operator.Kube.{Platform}

-- `groupHealthcheckResult`
pub record GroupHealthcheckResult : Type 0 where
  pub subgroups_not_found : List LocalObjectReference
  pub subgroups_not_healthy : List LocalObjectReference
  pub hosts_not_found : List LocalObjectReference
  pub hosts_not_healthy : List LocalObjectReference

-- The missing and the unhealthy references that a loop has found.
pub record Checked : Type 0 where
  pub missing : List LocalObjectReference
  pub unhealthy : List LocalObjectReference

-- the condition `Ready` is there and true
module _ (P : Platform) where
  abbrev pub is_ready : List Condition → Bool
  is_ready conditions = elim (P.find_status_condition conditions "Ready") [
    | none ↦ false
    | some c ↦ is_true c.status
  ]

  -- the conditions of the group or of the host under a key
  abbrev pub group_conditions : ObjectKey → P.State → Result (List Condition)
  group_conditions k s = elim (P.get_group k s) [
    | ok g ↦ ok g.conditions
    | err e ↦ err e
    | panic ↦ panic
  ]

  abbrev pub host_conditions : ObjectKey → P.State → Result (List Condition)
  host_conditions k s = elim (P.get_host k s) [
    | ok h ↦ ok h.conditions
    | err e ↦ err e
    | panic ↦ panic
  ]

  module _ (get : ObjectKey → P.State → Result (List Condition)) (namespace : String)
      (s : P.State) where
    unfoldable pub check_references : List LocalObjectReference → Checked → Result Checked
    check_references [] found = ok found
    check_references (ref ∷ refs) found =
        elim (get (record { namespace = namespace; name = ref.name }) s) [
          | ok conditions ↦ check_references refs (
              if is_ready conditions
              then found
              else record found { unhealthy = found.unhealthy ++ (ref ∷ []) })
          | err e ↦ elim e.reason [
            | not_found ↦
                check_references refs (record found { missing = found.missing ++ (ref ∷ []) })
            | other ↦ err (wrap_text ("unable to check health for object '" <> (ref.name <> "'")) e)
          ]
          | panic ↦ panic
        ]

  abbrev pub nothing_found : Checked
  nothing_found = record { missing = []; unhealthy = [] }

  unfoldable pub is_groups_array_ok : AnsibleGroup → P.State → Result Checked
  unfolding check_references
  is_groups_array_ok group s =
      check_references group_conditions group.meta.namespace s group.spec.groups nothing_found

  unfoldable pub is_hosts_array_ok : AnsibleGroup → P.State → Result Checked
  unfolding check_references
  is_hosts_array_ok group s =
      check_references host_conditions group.meta.namespace s group.spec.hosts nothing_found

  abbrev health_of : Checked → Checked → GroupHealthcheckResult
  health_of groups hosts = record {
    subgroups_not_found = groups.missing;
    subgroups_not_healthy = groups.unhealthy;
    hosts_not_found = hosts.missing;
    hosts_not_healthy = hosts.unhealthy;
  }

  unfoldable pub check_group_health : AnsibleGroup → P.State → Result GroupHealthcheckResult
  check_group_health group s =
      elim (map_error (wrap_text "error checking groups") (is_groups_array_ok group s)) [
        | ok groups ↦
            elim (map_error (wrap_text "error checking hosts") (is_hosts_array_ok group s)) [
              | ok hosts ↦ ok (health_of groups hosts)
              | err e ↦ err e
              | panic ↦ panic
            ]
        | err e ↦ err e
        | panic ↦ panic
      ]
