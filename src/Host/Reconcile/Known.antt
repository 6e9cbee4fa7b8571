-- ===== src/Host/Reconcile/Known.antt =====
-- Whether the server has the host as the controller has it.
use ansible_operator.Base.{
  String, ◌≡◌, refl, sym, ap, ◌∙◌, ◌⊎◌, inl, inr, true, false, arith, Result, ok, err, panic,
  succeeded, Bool-cases, Result-cases, is_ok, is_err, is_panic, wrap, ◌∷◌,
}
use mathlib.Core.Path.{subst}
use ansible_operator.Base.Post.{Post, Outcome, Keeps}
use ansible_operator.Api.{AnsibleHost, Condition, object_key}
use ansible_operator.Kube.{Platform, Session, update_host_status}
use ansible_operator.Kube.Laws.{ConditionLaws, StatusLaws, HostLaws}
use ansible_operator.VarsConfigMap.{ensure_vars, create_vars_config_map, update_vars}
use ansible_operator.Ssh.Keyscan.{Network, Arrival}
use ansible_operator.Host.Status.{push_status, put_ready}
use ansible_operator.Host.Secrets.{ensure_host_keys_secret_exists, create_host_keys_secret}
use ansible_operator.Host.Reconcile.{ensure_vars_config_map}

module _ (P : Platform) where
  abbrev HostSession : Type 0
  HostSession = Session P AnsibleHost

  -- The server has the host in hand.
  abbrev pub Stored : HostSession → Type 0
  Stored t = P.get_host (object_key t.object.meta) t.server ≡ ok t.object

  -- The last thing that the server did was not to accept the status of the host in hand.
  abbrev pub Refused : HostSession → Type 0
  Refused t =
      (u : P.State) × (succeeded (P.update_host_status t.object u).0 ≡ false)
      × (t.server ≡ (P.update_host_status t.object u).1)

  -- of a status update that has ended
  abbrev After : Result (Unit {0}) × HostSession → Type 0
  After (ok a, t) = Stored t
  After (err e, t) = Refused t
  After (panic, t) = Refused t

  After-either : (x : Result (Unit {0}) × HostSession) → After x → Stored x.1 ⊎ Refused x.1
  After-either (ok a, t) h = inl h
  After-either (err e, t) h = inr h
  After-either (panic, t) h = inr h

  After-Outcome :
      (x : Result (Unit {0}) × HostSession) → After x → Outcome (λ _ t. Stored t) x.0 x.1
  After-Outcome (ok a, t) h = h
  After-Outcome (err e, t) h = tt
  After-Outcome (panic, t) h = tt

  module _ (conditions : ConditionLaws P) (statuses : StatusLaws P) (hosts : HostLaws P) where
    put_ready-After : (c : Condition) (s : HostSession) → Stored s → After (put_ready P c s)
    unfolding put_ready push_status
    put_ready-After c s stored =
        let updated : AnsibleHost = record s.object {
          conditions = (P.set_status_condition s.object.conditions c).0;
        } in
        let sent : HostSession = record {
          server = (P.update_host_status updated s.server).1;
          requests = update_host_status updated ∷ s.requests;
          object = updated;
        } in
        elim (Bool-cases (P.set_status_condition s.object.conditions c).1) [
          | inl changed ↦ elim (Result-cases (P.update_host_status updated s.server).0) [
            | is_ok h got ↦
                let accepted : succeeded (P.update_host_status updated s.server).0 ≡ true =
                  ground (arith, got) in
                let ran : put_ready P c s ≡ (ok tt, sent) =
                  ground (arith, changed, statuses.host_echo updated s.server accepted) in
                subst After (sym ran) (hosts.get-host_status updated s.server accepted)
            | is_err e got ↦
                let ran : put_ready P c s
                    ≡ (err (wrap "failed to update AnsibleHost status" e), sent) =
                  ground (arith, changed, got) in
                subst After (sym ran) (s.server, ground (arith, got), refl)
            | is_panic got ↦
                let ran : put_ready P c s ≡ (panic, sent) = ground (arith, changed, got) in
                subst After (sym ran) (s.server, ground (arith, got), refl)
          ]
          | inr same ↦
              let ran : put_ready P c s ≡ (ok tt, record s { object = updated }) =
                ground (arith, same) in
              subst After (sym ran) (
                stored
                ∙ ap (λ cs. ok (record s.object { conditions = cs }))
                    (sym (conditions.unchanged_iff_2 s.object.conditions c same)))
        ]

    pub put_ready-Stored :
        (c : Condition) (s : HostSession) → Stored s → Post (λ _ t. Stored t) (put_ready P c) s
    put_ready-Stored c s stored = record {
      holds = After-Outcome (put_ready P c s) (put_ready-After c s stored);
    }

    pub put_ready-either :
        (c : Condition) (s : HostSession)
        → Stored s
        → Stored (put_ready P c s).1 ⊎ Refused (put_ready P c s).1
    put_ready-either c s stored = After-either (put_ready P c s) (put_ready-After c s stored)

  module _ (hosts : HostLaws P) (N : Network) (arrival : Arrival N)
      (parse_private_key : String → Result (Unit {0})) (host : AnsibleHost) where
    pub ensure_vars-Stored :
        Keeps Stored (ensure_vars_config_map P N arrival parse_private_key host)
    unfolding ensure_vars_config_map ensure_vars create_vars_config_map update_vars
    ensure_vars-Stored = record {
      at = λ s h. grind (arith, hosts.get-create_config_map, hosts.get-update_config_map);
    }

    pub ensure_host_keys-Stored : Keeps Stored (ensure_host_keys_secret_exists P N arrival host)
    unfolding ensure_host_keys_secret_exists create_host_keys_secret
    ensure_host_keys-Stored = record { at = λ s h. grind (arith, hosts.get-create_secret) }
