-- ===== src/Group/Reconcile/Convergence.antt =====
-- One reconcile of a group sets its conditions, and the next one leaves everything as it is.
use ansible_operator.Base.{◌≡◌, refl, ap, ◌∙◌, ok}
use ansible_operator.Api.{AnsibleGroup}
use ansible_operator.Kube.{Platform, Session, done}
use ansible_operator.Kube.Laws.{ConditionLaws, StatusLaws, FrameLaws, MemberLaws}
use ansible_operator.Group.Health.{GroupHealthcheckResult}
use ansible_operator.Group.Health.Frame.{NotOwnSubgroup}
use ansible_operator.Group.Reconcile.{reconcile_group}
use ansible_operator.Group.Reconcile.Idle.{Shows, Stands, reconcile_group_idle}
use ansible_operator.Group.Reconcile.Settling.{
  TakesStatus, Tracked, Good-InPlace, Good-checked, reconcile_group-Sure,
}

-- nothing else
untracked : (P : Platform) (g : AnsibleGroup) → Tracked P g (λ _ _. Unit)
untracked P g = record { wrote = λ x y u e a. tt; kept = λ c x u e a. tt }

-- Under the laws of conditions, of status updates and of what these leave alone: a group whose variables
-- are in their config map, whose health check has a result `h`, whose status updates the server
-- accepts, and that is not among its own subgroups, settles: the reconcile returns with no other reconcile
-- asked for and leaves the three conditions that `h` calls for, with their reasons and messages, and the
-- next reconcile, of the group as it is then, returns the same, sends nothing and changes nothing.
pub reconcile_group_converges :
    (P : Platform) (conditions : ConditionLaws P) (statuses : StatusLaws P) (frame : FrameLaws P)
    (members : MemberLaws P) (s : Session P AnsibleGroup) (h : GroupHealthcheckResult)
    → TakesStatus P s.object
    → NotOwnSubgroup s.object
    → Stands P h s
    → ((reconcile_group P s).0 ≡ ok done)
      × Shows P h (reconcile_group P s).1.object
      × (reconcile_group P (reconcile_group P s).1 ≡ (ok done, (reconcile_group P s).1))
reconcile_group_converges P conditions statuses frame members s h accepted apart (placed, checked) =
    let sure =
      reconcile_group-Sure P conditions statuses frame members s.object accepted apart h _
        (untracked P s.object) s
        (record { same = (refl, refl); placed = placed; checked = checked; also = tt }) in
    let (returned, good, shows) = sure.holds in
    (
      sure.returns ∙ ap ok returned,
      shows,
      reconcile_group_idle P conditions h _ shows (
        Good-InPlace P conditions statuses frame members s.object accepted apart h _
            (untracked P s.object) _ good,
        Good-checked P conditions statuses frame members s.object accepted apart h _
            (untracked P s.object) _ good,
      ),
    )
