-- ===== src/Group/Reconcile/Cascade.antt =====
-- Groups of groups, each reconciled once, the members before the groups that have them.
use ansible_operator.Base.{
  arith, refl, ◌≡◌, ◌≢◌, sym, ◌∙◌, List, [], ◌∷◌, All, All-impl, All-Memᴰ, All-map, Result, ok,
}
use mathlib.Core.Path.{subst}
use mathlib.Core.List.{Memᴰ}
use ansible_operator.Api.{ObjectKey, object_key, AnsibleGroup}
use ansible_operator.Kube.{Platform, ReconcileResult, done}
use ansible_operator.Kube.Laws.{ConditionLaws, StatusLaws, FrameLaws, MemberLaws}
use ansible_operator.VarsConfigMap.{vars_key}
use ansible_operator.VarsConfigMap.Laws.{IsOwnVars}
use ansible_operator.Group.Health.{group_conditions, host_conditions}
use ansible_operator.Group.Health.Frame.{NotOwnSubgroup}
use ansible_operator.Group.Health.Well.{IsReadyAnswer, member_key}
use ansible_operator.Group.Reconcile.{reconcile}
use ansible_operator.Group.Reconcile.Step.{
  Beside, Prepared, ReadyGroup, Stepped, begin, reconcile-Stepped,
}

-- The subgroups of a group are in `before` or come earlier in the list, and no group comes twice.
abbrev pub IsOrdered : List ObjectKey → List AnsibleGroup → Type 0
IsOrdered before [] = Unit
IsOrdered before (g ∷ gs) =
    All (λ ref. Memᴰ (member_key g ref) before) g.spec.groups
    × (Memᴰ (object_key g.meta) before → ⊥)
    × IsOrdered (object_key g.meta ∷ before) gs

-- The groups that are yet to come are none of those before.
IsOrdered-apart :
    (before : List ObjectKey) (gs : List AnsibleGroup) (k : ObjectKey)
    → Memᴰ k before
    → IsOrdered before gs
    → All (λ (g : AnsibleGroup). object_key g.meta ≢ k) gs
IsOrdered-apart before [] k m _ = tt
IsOrdered-apart before (g ∷ gs) k m (_, fresh, rest) = (
  λ e. fresh (subst (λ x. Memᴰ x before) (sym e) m),
  IsOrdered-apart (object_key g.meta ∷ before) gs k (Memᴰ.tail m) rest,
)

IsOrdered-NotOwnSubgroup :
    (before : List ObjectKey) (g : AnsibleGroup)
    → All (λ ref. Memᴰ (member_key g ref) before) g.spec.groups
    → (Memᴰ (object_key g.meta) before → ⊥)
    → NotOwnSubgroup g
IsOrdered-NotOwnSubgroup before g members fresh =
    All-impl (λ ref. Memᴰ (member_key g ref) before) (λ ref. ref.name ≢ g.meta.name)
      (λ ref m e.
        fresh
          (subst (λ name. Memᴰ (record { namespace = g.meta.namespace; name = name }) before) e m))
      g.spec.groups members

module _ (P : Platform) where
  -- The controller reconciles the groups in the order of the list: the outcomes, and the server at the end.
  abbrev pub reconcile_all :
      AnsibleGroup → List AnsibleGroup → P.State → List (Result ReconcileResult) × P.State
  reconcile_all blank [] s = ([], s)
  reconcile_all blank (g ∷ gs) s =
      let (r, t) = reconcile P (object_key g.meta) (begin P blank s) in
      let (rs, u) = reconcile_all blank gs t.server in (r ∷ rs, u)

  Beside-host_conditions :
      (g : AnsibleGroup) (k : ObjectKey) (s t : P.State)
      → Beside P g s t
      → host_conditions P k t ≡ host_conditions P k s
  Beside-host_conditions g k s t beside = ground (arith, beside.hosts k)

  Beside-Prepared :
      (g o : AnsibleGroup) (s t : P.State)
      → object_key o.meta ≢ object_key g.meta
      → Beside P g s t
      → Prepared P o s
      → Prepared P o t
  Beside-Prepared g o s t ne beside prepared = record {
    fetched = beside.groups (object_key o.meta) ne ∙ prepared.fetched;
    placed =
        subst (IsOwnVars P o.meta o.spec.group_vars) (sym (beside.maps (vars_key o.meta)))
          prepared.placed;
    hosts =
        All-impl (λ ref. IsReadyAnswer P (host_conditions P (member_key o ref) s))
          (λ ref. IsReadyAnswer P (host_conditions P (member_key o ref) t))
          (λ ref ready.
            subst (IsReadyAnswer P) (sym (Beside-host_conditions g (member_key o ref) s t beside))
              ready)
          o.spec.hosts prepared.hosts;
    accepted = prepared.accepted;
  }

  Beside-ReadyGroup :
      (g : AnsibleGroup) (k : ObjectKey) (s t : P.State)
      → k ≢ object_key g.meta
      → Beside P g s t
      → ReadyGroup P k s
      → ReadyGroup P k t
  Beside-ReadyGroup g k s t ne beside ready =
      let e : group_conditions P k t ≡ group_conditions P k s =
        ground (arith, beside.groups k ne) in
      subst (IsReadyAnswer P) (sym e) ready

  Beside-All :
      (g : AnsibleGroup) (gs : List AnsibleGroup) (s t : P.State)
      → All (λ (o : AnsibleGroup). object_key o.meta ≢ object_key g.meta) gs
      → Beside P g s t
      → All (λ o. Prepared P o s) gs
      → All (λ o. Prepared P o t) gs
  Beside-All g [] s t _ beside _ = tt
  Beside-All g (o ∷ os) s t (ne, apart) beside (p, rest) =
      (Beside-Prepared g o s t ne beside p, Beside-All g os s t apart beside rest)

  module _ (conditions : ConditionLaws P) (statuses : StatusLaws P) (frame : FrameLaws P)
      (members : MemberLaws P) (blank : AnsibleGroup) where
    reconcile_next :
        (before : List ObjectKey) (g : AnsibleGroup) (gs : List AnsibleGroup) (s : P.State)
        → IsOrdered before (g ∷ gs)
        → All (λ k. ReadyGroup P k s) before
        → Prepared P g s
        → Stepped P g s (reconcile P (object_key g.meta) (begin P blank s))
    reconcile_next before g gs s (inside, fresh, _) ready prepared =
        reconcile-Stepped P conditions statuses frame members g s blank prepared
          (IsOrdered-NotOwnSubgroup before g inside fresh)
          (All-impl (λ ref. Memᴰ (member_key g ref) before)
            (λ ref. ReadyGroup P (member_key g ref) s)
            (λ ref m. All-Memᴰ (λ k. ReadyGroup P k s) before (member_key g ref) m ready)
            g.spec.groups inside)

    -- Under the laws of conditions, of status updates and of what these leave alone: the controller
    -- reconciles some groups once each, in an order in which the subgroups of each are earlier in
    -- the list or among the groups of `before`, which are ready. Every group is on the server, its
    -- variables are in their config map, its hosts are ready, and the server takes its status. Then
    -- every reconcile returns with no other one asked for, and at the end all the groups of the list
    -- are ready on the server, and those of `before` are still ready.
    pub reconcile_all_ready :
        (before : List ObjectKey) (gs : List AnsibleGroup) (s : P.State)
        → IsOrdered before gs
        → All (λ k. ReadyGroup P k s) before
        → All (λ g. Prepared P g s) gs
        → All (λ r. r ≡ ok done) (reconcile_all blank gs s).0
          × All
              (λ (g : AnsibleGroup). ReadyGroup P (object_key g.meta) (reconcile_all blank gs s).1)
              gs
          × All (λ k. ReadyGroup P k (reconcile_all blank gs s).1) before
    reconcile_all_ready before [] s _ ready _ = (tt, tt, ready)
    reconcile_all_ready before (g ∷ gs) s ordered ready (prepared, rest) =
        let step = reconcile_next before g gs s ordered ready prepared in
        let t = (reconcile P (object_key g.meta) (begin P blank s)).1.server in
        let (_, fresh, later) = ordered in
        let still =
          All-map (λ k. ReadyGroup P k s) (λ k. ReadyGroup P k t) before
            (λ k m.
              Beside-ReadyGroup g k s t (λ e. fresh (subst (λ x. Memᴰ x before) e m)) step.beside)
            ready in
        let (returned, now, kept) =
          reconcile_all_ready (object_key g.meta ∷ before) gs t later (step.ready, still)
            (Beside-All g gs s t
              (IsOrdered-apart (object_key g.meta ∷ before) gs (object_key g.meta) (Memᴰ.head refl)
                later)
              step.beside rest) in
        ((step.returned, returned), (kept.0, now), kept.1)
