-- ===== src/Host/Reconcile/Outcome.antt =====
-- What a reconcile of a host returns, and the condition `Ready` that it leaves.
use ansible_operator.Base.{
  String, ◌≡◌, refl, sym, ap, ◌∙◌, ◌⊎◌, inl, inr, true, some, List, arith, ok, Result,
}
use ansible_operator.Base.Post.{
  Post, Post-elim, Post-then, Post-weaken, Post-with_error, Post-trying, Post-pure, Post-state,
  Post-if, Post-both, Keeps-if, Keeps-pure,
}
use mathlib.Core.Path.{subst}
use ansible_operator.Api.{AnsibleHost, Condition, condition_true, condition_false}
use ansible_operator.Kube.{Platform, Session, ReconcileResult, done}
use ansible_operator.Kube.Laws.{Has, ConditionLaws, StatusLaws, HostLaws}
use ansible_operator.Kube.Steps.{Post-read}
use ansible_operator.Ssh.Keyscan.{Network, Arrival}
use ansible_operator.Host.Status.{put_ready, set_status_ready, set_status_not_ready}
use ansible_operator.Host.Secrets.{host_private_key_secret_exists}
use ansible_operator.Host.Reconcile.{
  requeue, not_ready, finish, with_vars, with_host_keys, reconcile_host,
}
use ansible_operator.Host.Reconcile.Known.{
  Stored, Refused, put_ready-Stored, put_ready-either, ensure_vars-Stored, ensure_host_keys-Stored,
}

module _ (P : Platform) (conditions : ConditionLaws P) (laws : StatusLaws P) where
  -- The condition is set on the host in memory, whether or not the server accepts it.
  object-put_ready :
      (c : Condition) (s : Session P AnsibleHost)
      → (put_ready P c s).1.object.conditions ≡ (P.set_status_condition s.object.conditions c).0
  unfolding put_ready
  object-put_ready c s =
      let updated : AnsibleHost = record s.object {
        conditions = (P.set_status_condition s.object.conditions c).0;
      } in
      ground (arith, laws.host_echo updated s.server)

  Has-of_find :
      (c : Condition) {cs : List Condition}
      → P.find_status_condition cs c.type ≡ some c
      → Has P cs c.type c.status
  Has-of_find c found = ground (arith, found)

  Has-put_ready :
      (c : Condition) (s : Session P AnsibleHost)
      → Has P (put_ready P c s).1.object.conditions c.type c.status
  Has-put_ready c s =
      rw (object-put_ready c s) (Has-of_find c (conditions.find-set_self s.object.conditions c))

  module _ (hosts : HostLaws P) (N : Network) (arrival : Arrival N)
      (parse_private_key : String → Result (Unit {0})) where
    -- Either the host is ready, on the server too, or it is not and is to be looked at again in 30
    -- seconds; then the server has it as it is, or has refused its status.
    abbrev pub Settled : (ready : Type 0) → ReconcileResult → Session P AnsibleHost → Type 0
    Settled ready r t =
        (ready × (r ≡ done) × Has P t.object.conditions "Ready" condition_true × Stored P t)
        ⊎ ((r ≡ requeue)
            × Has P t.object.conditions "Ready" condition_false
            × (Stored P t ⊎ Refused P t))

    not_ready_lem :
        (ready : Type 0) (reason message : String) (s : Session P AnsibleHost)
        → Stored P s
        → Post (Settled ready) (not_ready P N arrival parse_private_key reason message) s
    unfolding not_ready set_status_not_ready
    not_ready_lem ready reason message s stored =
        let c : Condition = record {
          type = "Ready";
          status = condition_false;
          reason = reason;
          message = message;
        } in
        let left = put_ready-either P conditions laws hosts c s stored in
        Post-trying (put_ready P c) _ _ s
          (Post-state (λ t. Post (Settled ready) _ t) (put_ready P c) s
            (Post-pure requeue _ (inr (refl, Has-put_ready c s, left))))
          (λ e. Post-pure requeue _ (inr (refl, Has-put_ready c s, left)))

    finish_lem :
        (s : Session P AnsibleHost)
        → Stored P s
        → Post
            (λ r t. (r ≡ done) × Has P t.object.conditions "Ready" condition_true × Stored P t)
            (finish P N arrival parse_private_key)
            s
    unfolding finish set_status_ready
    finish_lem s stored =
        Post-then _ _ s
          (Post-with_error _ _ s (
            Post-both {R = λ t. Has P t.object.conditions "Ready" condition_true} _ s
              (put_ready-Stored P conditions laws hosts _ s stored) (Has-put_ready _ s)))
          λ _ t h. Post-pure done t (refl, h.1, h.0)

    with_vars_lem :
        (host : AnsibleHost) (s : Session P AnsibleHost)
        → Stored P s
        → Post (Settled (Unit {0})) (with_vars P N arrival parse_private_key host) s
    unfolding with_vars
    with_vars_lem host s stored =
        let after = (ensure_vars-Stored P hosts N arrival parse_private_key host).at s stored in
        Post-trying _ _ _ s
          (Post-state (λ t. Post (Settled (Unit {0})) (finish P N arrival parse_private_key) t) _ s
            (Post-weaken _ _ (λ r t h. inl (tt, h.0, h.1, h.2)) (finish_lem _ after)))
          (λ e. not_ready_lem _ _ _ _ after)

    with_host_keys_lem :
        (host : AnsibleHost) (s : Session P AnsibleHost)
        → Stored P s
        → Post (Settled (Unit {0})) (with_host_keys P N arrival parse_private_key host) s
    unfolding with_host_keys
    with_host_keys_lem host s stored =
        let after =
          (Keeps-if host.spec.ssh.ignore_host_key _ _ (Keeps-pure tt)
              (ensure_host_keys-Stored P hosts N arrival parse_private_key host)).at
            s stored in
        Post-trying _ _ _ s
          (Post-state
            (λ t. Post (Settled (Unit {0})) (with_vars P N arrival parse_private_key host) t) _ s
            (with_vars_lem host _ after))
          (λ e. not_ready_lem _ _ _ _ after)

    -- The secret with the private key is there and can be parsed.
    abbrev pub HasPrivateKey : AnsibleHost → P.State → Type 0
    HasPrivateKey host s = host_private_key_secret_exists P parse_private_key host s ≡ ok true

    reconcile_host_lem :
        (host : AnsibleHost) (s : Session P AnsibleHost)
        → Stored P s
        → Post
            (Settled (HasPrivateKey host s.server))
            (reconcile_host P N arrival parse_private_key host)
            s
    unfolding reconcile_host
    reconcile_host_lem host s stored =
        Post-trying _ _ _ s
          (Post-weaken
            {Q = λ a t.
              (host_private_key_secret_exists P parse_private_key host s.server ≡ ok a) × (t ≡ s)}
            _ s
            (λ exists t found.
              let kept = subst (Stored P) (sym found.1) stored in
              Post-if exists _ _ t
                (λ yes_exists.
                  Post-weaken {Q = Settled (Unit {0})} _ t
                    (λ r u settled. elim settled [
                      | inl h ↦ inl (found.0 ∙ ap ok yes_exists, h.1, h.2, h.3)
                      | inr h ↦ inr h
                    ])
                    (with_host_keys_lem host t kept))
                (λ _. not_ready_lem _ _ _ t kept))
            (Post-read (host_private_key_secret_exists P parse_private_key host) s))
          (λ e. not_ready_lem _ _ _ _ stored)

    -- Under the laws of conditions, of status updates and of what changes a host: if the server has the
    -- host in hand as it is and the reconcile of it returns without an error, then either the private
    -- key secret was found to be there and valid, no other reconcile is asked for, and the host is left
    -- with `Ready` true, on the server too; or a reconcile after 30 seconds is asked for, and the host
    -- in hand is left with `Ready` false, which the server has too, unless it refused the status.
    pub reconcile_host-Settled :
        (host : AnsibleHost) (s : Session P AnsibleHost) (r : ReconcileResult)
        → Stored P s
        → (reconcile_host P N arrival parse_private_key host s).0 ≡ ok r
        → Settled
            (HasPrivateKey host s.server)
            r
            (reconcile_host P N arrival parse_private_key host s).1
    reconcile_host-Settled host s r stored = Post-elim _ _ r s (reconcile_host_lem host s stored)
