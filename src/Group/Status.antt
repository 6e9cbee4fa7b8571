-- ===== src/Group/Status.antt =====
-- `setCondition` and `defaultStatusToUnknown` of the group controller, on the group under
-- reconciliation.
pub mod Laws
use ansible_operator.Base.{
  String, ◌<>◌, none, some, List, Exec, pure, with_error, wrap_text, ◌>>=◌, ◌>>◌, if◌then◌else◌,
}
use ansible_operator.Api.{AnsibleGroup, Condition, ConditionStatus, condition_unknown}
use ansible_operator.Kube.{Platform, Session, update_group_status, read, send, this, assign_this}

module _ (P : Platform) where
  -- the status update of a group that has changed, whose answer replaces the group
  unfoldable pub push_status : AnsibleGroup → Exec (Session P AnsibleGroup) (Unit {0})
  push_status group = do
    group' ←
        with_error (wrap_text "unable to update AnsibleGroup status")
          (send (update_group_status group) (P.update_group_status group))
    assign_this group'

  unfoldable pub set_condition :
      String → ConditionStatus → String → String → Exec (Session P AnsibleGroup) (Unit {0})
  unfolding push_status
  set_condition type status reason message = do
    group ← this
    let (conditions, changed) =
        P.set_status_condition group.conditions
          (record { type = type; status = status; reason = reason; message = message })
    let updated : AnsibleGroup = record group { conditions = conditions }
    assign_this updated
    if changed then push_status updated else pure tt

  unfoldable pub default_status_to_unknown : String → Exec (Session P AnsibleGroup) (Unit {0})
  default_status_to_unknown status = do
    group ← this
    elim (P.find_status_condition group.conditions status) [
      | some c ↦ pure tt
      | none ↦ with_error (wrap_text "failed to set condition on AnsibleGroup") (
          set_condition status condition_unknown "ReconcileStarted"
            ("AnsibleGroup is initializing: " <> (status <> " condition not set")))
    ]
