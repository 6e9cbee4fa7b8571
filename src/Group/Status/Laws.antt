-- ===== src/Group/Status/Laws.antt =====
-- What `setCondition` leaves in the group: the conditions as `SetStatusCondition` makes them.
use ansible_operator.Base.{String, ◌<>◌, ◌≡◌, arith}
use ansible_operator.Base.Post.{Post}
use ansible_operator.Api.{AnsibleGroup, Condition, ConditionStatus, condition_unknown}
use ansible_operator.Kube.{Platform, Session}
use ansible_operator.Kube.Laws.{StatusLaws}
use ansible_operator.Group.Status.{default_status_to_unknown, set_condition}

module _ (P : Platform) where
  -- the group with one condition set
  abbrev pub with_condition : AnsibleGroup → Condition → AnsibleGroup
  with_condition group c = record group {
    conditions = (P.set_status_condition group.conditions c).0;
  }

-- Nothing but the conditions differs.
abbrev pub SameSpec : AnsibleGroup → AnsibleGroup → Type 0
SameSpec g g' = (g'.meta ≡ g.meta) × (g'.spec ≡ g.spec)

module _ (P : Platform) (laws : StatusLaws P) where
  -- Whether the status is written or has not changed, the group has the condition.
  pub set_condition_lem :
      (type : String) (status : ConditionStatus) (reason message : String)
      (s : Session P AnsibleGroup)
      → Post
          (λ _ t.
            t.object
            ≡ with_condition P s.object
                (record { type = type; status = status; reason = reason; message = message }))
          (set_condition P type status reason message)
          s
  unfolding set_condition
  set_condition_lem type status reason message s =
      let updated : AnsibleGroup =
        with_condition P s.object
          (record { type = type; status = status; reason = reason; message = message }) in
      record { holds = ground (arith, laws.group_echo updated s.server) }

  -- The default changes nothing but the conditions.
  pub default_status_to_unknown_lem :
      (type : String) (s : Session P AnsibleGroup)
      → Post (λ _ t. SameSpec s.object t.object) (default_status_to_unknown P type) s
  unfolding default_status_to_unknown set_condition
  default_status_to_unknown_lem type s =
      let updated : AnsibleGroup = with_condition P s.object (record {
        type = type;
        status = condition_unknown;
        reason = "ReconcileStarted";
        message = "AnsibleGroup is initializing: " <> (type <> " condition not set");
      }) in
      record { holds = ground (arith, laws.group_echo updated s.server) }
