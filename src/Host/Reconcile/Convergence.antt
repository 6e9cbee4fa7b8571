-- ===== src/Host/Reconcile/Convergence.antt =====
-- A host that has all it needs becomes ready, and then stays as it is.
use ansible_operator.Base.{
  String, ◌≡◌, ◌≢◌, sym, ◌∙◌, true, some, arith, ok, Result, succeeded, Bool-cases, inl, inr, ◌⊎◌,
}
use mathlib.Core.Path.{subst}
use ansible_operator.Base.Maps.{lookup}
use ansible_operator.Api.{AnsibleHost, Condition, condition_true}
use ansible_operator.Kube.{Platform, Session, Secret, done}
use ansible_operator.Kube.Laws.{Has, ConditionLaws, StatusLaws, FrameLaws, SecretLaws}
use ansible_operator.Ssh.Keyscan.{Network, Arrival}
use ansible_operator.VarsConfigMap.{vars_key}
use ansible_operator.VarsConfigMap.Laws.{IsOwnVars, InPlace, ensure_vars_idle}
use ansible_operator.Host.Status.{put_ready, set_status_ready, push_status}
use ansible_operator.Host.Secrets.{host_keys_key, secret_key_of, host_private_key_secret_exists}
use ansible_operator.Host.Reconcile.{with_vars, finish, reconcile_host, ensure_vars_config_map}
use ansible_operator.Host.Reconcile.FirstUse.{KeysSettled, with_host_keys-eq-with_vars}

abbrev pub host_is_ready : Condition
host_is_ready = record {
  type = "Ready";
  status = condition_true;
  reason = "HostReady";
  message = "The AnsibleHost is ready to be used";
}

module _ (P : Platform) (N : Network) (arrival : Arrival N)
    (parse_private_key : String → Result (Unit {0})) where
  -- The host keys are ignored, or the secret for them is there and holds some.
  abbrev pub KeysResolved : AnsibleHost → P.State → Type 0
  KeysResolved host s =
      (host.spec.ssh.ignore_host_key ≡ true)
      ⊎ ((secret : Secret) × (keys : String) × (P.get_secret
              (secret_key_of host host.spec.ssh.ssh_host_key_secret_ref) s
            ≡ ok secret)
          × (lookup host_keys_key secret.data_map ≡ some keys)
          × (keys ≢ ""))

  KeysResolved-Settled :
      (host : AnsibleHost) (s : P.State)
      → KeysResolved host s
      → KeysSettled P N arrival parse_private_key host s
  KeysResolved-Settled host s (inl ignored) = inl ignored
  KeysResolved-Settled host s (inr (secret, _, found, _, _)) = inr (secret, found)

  -- The private key is there, the host keys are resolved, and the variables are in their config map.
  abbrev pub Prepared : AnsibleHost → P.State → Type 0
  Prepared host s =
      (host_private_key_secret_exists P parse_private_key host s ≡ ok true)
      × KeysResolved host s
      × InPlace P host.meta host.spec.host_vars s

  reconcile_host-eq-finish :
      (host : AnsibleHost) (s : Session P AnsibleHost)
      → Prepared host s.server
      → reconcile_host P N arrival parse_private_key host s ≡ finish P N arrival parse_private_key s
  unfolding reconcile_host with_vars ensure_vars_config_map
  reconcile_host-eq-finish host s (key, keys, vars) = rw (
    key,
    with_host_keys-eq-with_vars P N arrival parse_private_key host s
        (KeysResolved-Settled host s.server keys),
    ensure_vars_idle P "AnsibleHost" host.meta host.spec.host_vars s vars,
  )

  module _ (conditions : ConditionLaws P) (statuses : StatusLaws P) where
    -- the host with the condition that it is ready
    abbrev pub made_ready : AnsibleHost → AnsibleHost
    made_ready host = record host {
      conditions = (P.set_status_condition host.conditions host_is_ready).0;
    }

    finish_accepted :
        (s : Session P AnsibleHost)
        → succeeded (P.update_host_status (made_ready s.object) s.server).0 ≡ true
        → ((finish P N arrival parse_private_key s).0 ≡ ok done)
          × ((finish P N arrival parse_private_key s).1.object ≡ made_ready s.object)
          × (((finish P N arrival parse_private_key s).1.server ≡ s.server)
              ⊎ ((finish P N arrival parse_private_key s).1.server
                  ≡ (P.update_host_status (made_ready s.object) s.server).1))
    unfolding finish set_status_ready put_ready push_status
    finish_accepted s accepted =
        elim (Bool-cases (P.set_status_condition s.object.conditions host_is_ready).1) [
          | inl changed ↦ (
            ground (arith, changed, statuses.host_echo (made_ready s.object) s.server accepted),
            ground (arith, changed, statuses.host_echo (made_ready s.object) s.server accepted),
            inr (
                ground
                  (arith, changed, statuses.host_echo (made_ready s.object) s.server accepted)),
          )
          | inr same ↦ (ground (arith, same), ground (arith, same), inl (ground (arith, same)))
        ]

    finish_idle :
        (s : Session P AnsibleHost)
        → P.find_status_condition s.object.conditions "Ready" ≡ some host_is_ready
        → finish P N arrival parse_private_key s ≡ (ok done, s)
    unfolding finish set_status_ready put_ready push_status
    finish_idle s found =
        let same = conditions.unchanged_iff_1 s.object.conditions host_is_ready found in
        ground (arith, same, conditions.unchanged_iff_2 s.object.conditions host_is_ready same)

    module _ (frame : FrameLaws P) (secrets : SecretLaws P) where
      updated-Prepared :
          (host : AnsibleHost) (u : AnsibleHost) (s : P.State)
          → Prepared host s
          → Prepared (made_ready host) (P.update_host_status u s).1
      unfolding host_private_key_secret_exists
      updated-Prepared host u s (key, keys, vars) = (
        ground (
          arith,
          key,
          secrets.get-host_status (secret_key_of host host.spec.ssh.ssh_key_secret_ref) u s,
        ),
        elim keys [
          | inl ignored ↦ inl ignored
          | inr (secret, stored, found, there, some_keys) ↦
              inr (secret, stored, secrets.get-host_status _ u s ∙ found, there, some_keys)
        ],
        subst (IsOwnVars P host.meta host.spec.host_vars)
            (sym (frame.get-host_status (vars_key host.meta) u s)) vars,
      )

      -- The condition does not matter to what is asked of the host.
      finish-Prepared :
          (s : Session P AnsibleHost)
          → Prepared s.object s.server
          → succeeded (P.update_host_status (made_ready s.object) s.server).0 ≡ true
          → Prepared
              (finish P N arrival parse_private_key s).1.object
              (finish P N arrival parse_private_key s).1.server
      unfolding host_private_key_secret_exists
      finish-Prepared s prepared accepted =
          let (_, left, answers) = finish_accepted s accepted in
          rw left (elim answers [
            | inl same ↦ rw same prepared
            | inr written ↦
                rw written (updated-Prepared s.object (made_ready s.object) s.server prepared)
          ])

      -- Under the laws of conditions, of status updates and of what these leave alone: a host whose private
      -- key secret is there and valid, whose host keys are ignored or are a text that is stored and not empty, and whose variables are in their config map
      -- becomes ready, if the server accepts the status: the reconcile returns with no other reconcile asked
      -- for and leaves `Ready` true, and the next reconcile, of the host as it is then, returns the
      -- same, sends nothing and changes nothing.
      pub reconcile_host_converges :
          (s : Session P AnsibleHost)
          → Prepared s.object s.server
          → succeeded (P.update_host_status (made_ready s.object) s.server).0 ≡ true
          → ((reconcile_host P N arrival parse_private_key s.object s).0 ≡ ok done)
            × Has P
                (reconcile_host P N arrival parse_private_key s.object s).1.object.conditions
                "Ready"
                condition_true
            × (reconcile_host P N arrival parse_private_key
                  (reconcile_host P N arrival parse_private_key s.object s).1.object
                  (reconcile_host P N arrival parse_private_key s.object s).1
                ≡ (ok done, (reconcile_host P N arrival parse_private_key s.object s).1))
      reconcile_host_converges s prepared accepted =
          let (returned, left, _) = finish_accepted s accepted in
          let found = conditions.find-set_self s.object.conditions host_is_ready in
          rw (reconcile_host-eq-finish s.object s prepared) (
            returned,
            rw left (ground (arith, found)),
            reconcile_host-eq-finish _ _ (finish-Prepared s prepared accepted)
                ∙ finish_idle _ (rw left found),
          )
