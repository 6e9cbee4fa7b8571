-- ===== src/Group/Reconcile/Step.antt =====
-- One reconcile of a group whose members are ready, as the rest of the server sees it.
use ansible_operator.Base.{◌≡◌, ◌≢◌, refl, sym, ap, ◌∙◌, true, [], All, Result, ok, arith}
use mathlib.Core.Path.{subst}
use ansible_operator.Api.{ObjectKey, object_key, AnsibleGroup}
use ansible_operator.Kube.{Platform, Session, ReconcileResult, done}
use ansible_operator.Kube.Laws.{ConditionLaws, StatusLaws, FrameLaws, MemberLaws}
use ansible_operator.VarsConfigMap.Laws.{InPlace}
use ansible_operator.Group.Health.{is_ready, group_conditions, host_conditions}
use ansible_operator.Group.Health.Frame.{NotOwnSubgroup}
use ansible_operator.Group.Health.Well.{well, IsReadyAnswer, member_key, check_group_health-well}
use ansible_operator.Group.Reconcile.{reconcile, reconcile_group}
use ansible_operator.Group.Reconcile.Idle.{Shows}
use ansible_operator.Group.Reconcile.Settling.{TakesStatus, Tracked, reconcile_group-Sure}

module _ (P : Platform) where
  -- The states differ in the group `g` at most, among groups, hosts and config maps.
  pub record Beside (g : AnsibleGroup) (s t : P.State) : Type 0 where
    pub groups : (k : ObjectKey) → k ≢ object_key g.meta → P.get_group k t ≡ P.get_group k s
    pub hosts : (k : ObjectKey) → P.get_host k t ≡ P.get_host k s
    pub maps : (k : ObjectKey) → P.get_config_map k t ≡ P.get_config_map k s

  -- What `g` needs to become ready, but for its subgroups: it is on the server, its variables are in their config
  -- map, its hosts are ready, and the server takes its status.
  pub record Prepared (g : AnsibleGroup) (s : P.State) : Type 0 where
    pub fetched : P.get_group (object_key g.meta) s ≡ ok g
    pub placed : InPlace P g.meta g.spec.group_vars s
    pub hosts : All (λ ref. IsReadyAnswer P (host_conditions P (member_key g ref) s)) g.spec.hosts
    pub accepted : TakesStatus P g

  abbrev pub ReadyGroup : ObjectKey → P.State → Type 0
  ReadyGroup k s = IsReadyAnswer P (group_conditions P k s)

  -- a reconcile by the controller, which starts with no object in hand
  abbrev pub begin : AnsibleGroup → P.State → Session P AnsibleGroup
  begin blank s = record { server = s; requests = []; object = blank }

  pub record Stepped (g : AnsibleGroup) (s : P.State)
      (out : Result ReconcileResult × Session P AnsibleGroup) : Type 0 where
    pub returned : out.0 ≡ ok done
    pub ready : ReadyGroup (object_key g.meta) out.1.server
    pub beside : Beside g s out.1.server

  module _ (conditions : ConditionLaws P) (statuses : StatusLaws P) (frame : FrameLaws P)
      (members : MemberLaws P) (g : AnsibleGroup) (s : P.State) where
    -- The group in hand is the one on the server, and nothing else has changed.
    abbrev InHand : P.State → AnsibleGroup → Type 0
    InHand u o = (P.get_group (object_key g.meta) u ≡ ok o) × Beside g s u

    InHand-Tracked : TakesStatus P g → Tracked P g InHand
    InHand-Tracked accepted = record {
      wrote = λ x y u e (_, b). (
        rw (sym e.0) (members.get_group-group_status y u (accepted y u e)),
        record {
          groups = λ k ne.
              members.get_group-group_status_ne k y u (λ p. ne (p ∙ ap object_key e.0))
              ∙ b.groups k ne;
          hosts = λ k. members.get_host-group_status k y u ∙ b.hosts k;
          maps = λ k. frame.get-group_status k y u ∙ b.maps k;
        },
      );
      kept = λ c x u same (there, b). (
        there
            ∙ ap (λ cs. ok (record x { conditions = cs }))
                (sym (conditions.unchanged_iff_2 x.conditions c same)),
        b,
      );
    }

    ready-Shows : (o : AnsibleGroup) → Shows P well o → is_ready P o.conditions ≡ true
    ready-Shows o (_, _, ready) = ground (arith, ready)

    fetched-reconcile :
        (blank : AnsibleGroup)
        → P.get_group (object_key g.meta) s ≡ ok g
        → reconcile P (object_key g.meta) (begin blank s) ≡ reconcile_group P (begin g s)
    unfolding reconcile
    fetched-reconcile blank fetched = ground (arith, fetched)

    there-ReadyGroup :
        (o : AnsibleGroup) (u : P.State)
        → P.get_group (object_key g.meta) u ≡ ok o
        → is_ready P o.conditions ≡ true
        → ReadyGroup (object_key g.meta) u
    there-ReadyGroup o u there ready =
        let found : group_conditions P (object_key g.meta) u ≡ ok o.conditions =
          ground (arith, there) in
        subst (IsReadyAnswer P) (sym found) ready

    pub reconcile-Stepped :
        (blank : AnsibleGroup)
        → Prepared g s
        → NotOwnSubgroup g
        → All (λ ref. ReadyGroup (member_key g ref) s) g.spec.groups
        → Stepped g s (reconcile P (object_key g.meta) (begin blank s))
    reconcile-Stepped blank prepared apart subgroups =
        let sure =
          reconcile_group-Sure P conditions statuses frame members g prepared.accepted apart well
            InHand (InHand-Tracked prepared.accepted) (begin g s)
            (record {
              same = (refl, refl);
              placed = prepared.placed;
              checked = check_group_health-well P g s subgroups prepared.hosts;
              also = (
                prepared.fetched,
                record { groups = λ k ne. refl; hosts = λ k. refl; maps = λ k. refl },
              );
            }) in
        let (returned, good, shows) = sure.holds in
        let after = (reconcile_group P (begin g s)).1 in
        subst (Stepped g s) (sym (fetched-reconcile blank prepared.fetched)) (record {
          returned = sure.returns ∙ ap ok returned;
          ready =
              there-ReadyGroup after.object after.server good.also.0
                (ready-Shows after.object shows);
          beside = good.also.1;
        })
