-- ===== src/Host/Reconcile/Calm.antt =====
-- A reconcile of a host does not panic.
use ansible_operator.Base.{
  String, Option-cases, inl, inr, Result-cases, is_ok, is_err, is_panic, Result, arith,
}
use ansible_operator.Base.Calm.{NoPanic, Calm, calm_rules}
use ansible_operator.Base.Maps.{lookup}
use ansible_operator.Api.{AnsibleHost, Condition}
use ansible_operator.Kube.{Platform, Secret}
use ansible_operator.Kube.Calm.{NeverPanics, call_rules}
use ansible_operator.VarsConfigMap.Calm.{ensure_vars-Calm}
use ansible_operator.Ssh.Keyscan.{Network, Arrival, scan_host, collected}
use ansible_operator.Host.Status.{push_status, put_ready, set_status_ready, set_status_not_ready}
use ansible_operator.Host.Secrets.{
  ssh_key_secret_key, secret_key_of, check_private_key, host_private_key_secret_exists,
  get_host_keys, create_host_keys_secret, ensure_host_keys_secret_exists,
}
use ansible_operator.Host.Reconcile.{
  not_ready, finish, ensure_vars_config_map, with_vars, with_host_keys, reconcile_host,
}

get_host_keys-NoPanic :
    (N : Network) (arrival : Arrival N) (host : AnsibleHost)
    → NoPanic (get_host_keys N arrival host)
unfolding get_host_keys scan_host collected
get_host_keys-NoPanic N arrival host = ground arith

module _ (P : Platform) (never : NeverPanics P) (N : Network) (arrival : Arrival N)
    (parse_private_key : String → Result (Unit {0}))
    (parses : (text : String) → NoPanic (parse_private_key text)) where
  push_status-Calm : (h : AnsibleHost) → Calm (push_status P h)
  unfolding push_status
  push_status-Calm h = search (calm_rules, call_rules, never.update_host_status)

  put_ready-Calm : (c : Condition) → Calm (put_ready P c)
  unfolding put_ready
  put_ready-Calm c = search (calm_rules, call_rules, push_status-Calm)

  not_ready-Calm :
      (reason message : String) → Calm (not_ready P N arrival parse_private_key reason message)
  unfolding not_ready set_status_not_ready
  not_ready-Calm reason message = search (calm_rules, put_ready-Calm)

  with_vars-Calm : (host : AnsibleHost) → Calm (with_vars P N arrival parse_private_key host)
  unfolding with_vars ensure_vars_config_map finish set_status_ready
  with_vars-Calm host =
      search (calm_rules, not_ready-Calm, put_ready-Calm, ensure_vars-Calm, never) depth 10

  create_host_keys_secret-Calm :
      (host : AnsibleHost) → Calm (create_host_keys_secret P N arrival host)
  unfolding create_host_keys_secret
  create_host_keys_secret-Calm host =
      search
        (
          calm_rules, call_rules, get_host_keys-NoPanic, never.set_controller_reference,
          never.create_secret,
        )
        depth 12

  ensure_host_keys_secret_exists-Calm :
      (host : AnsibleHost) → Calm (ensure_host_keys_secret_exists P N arrival host)
  unfolding ensure_host_keys_secret_exists
  ensure_host_keys_secret_exists-Calm host =
      let key = secret_key_of host host.spec.ssh.ssh_host_key_secret_ref in
      record {
        at = λ s. elim (Result-cases (P.get_secret key s.server)) [
          | is_ok secret got ↦ ground (arith, got)
          | is_err e got ↦ ground (arith, got, (create_host_keys_secret-Calm host).at s)
          | is_panic got ↦ ground (arith, got, never.get_secret key s.server)
        ];
      }

  check_private_key-NoPanic :
      (secret : Secret) → NoPanic (check_private_key P parse_private_key secret)
  unfolding check_private_key
  check_private_key-NoPanic secret =
      elim (Option-cases (lookup ssh_key_secret_key secret.data_map)) [
        | inl missing ↦ ground (arith, missing)
        | inr (text, found) ↦ ground (arith, found, parses text)
      ]

  host_private_key_secret_exists-NoPanic :
      (host : AnsibleHost) (s : P.State)
      → NoPanic (host_private_key_secret_exists P parse_private_key host s)
  unfolding host_private_key_secret_exists
  host_private_key_secret_exists-NoPanic host s =
      let key = secret_key_of host host.spec.ssh.ssh_key_secret_ref in
      elim (Result-cases (P.get_secret key s)) [
        | is_ok secret got ↦ ground (arith, got, check_private_key-NoPanic secret)
        | is_err e got ↦ ground (arith, got)
        | is_panic got ↦ ground (arith, got, never.get_secret key s)
      ]

  -- If no call of the API server and no parse of a private key panics, a reconcile of a host does
  -- not: from every state it returns a result or an error.
  pub reconcile_host-Calm :
      (host : AnsibleHost) → Calm (reconcile_host P N arrival parse_private_key host)
  unfolding reconcile_host with_host_keys
  reconcile_host-Calm host =
      search
        (
          calm_rules, call_rules, host_private_key_secret_exists-NoPanic, not_ready-Calm,
          with_vars-Calm, ensure_host_keys_secret_exists-Calm,
        )
        depth 12
