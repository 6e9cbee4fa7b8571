-- ===== src/Host/Reconcile/Within.antt =====
-- How many requests a reconcile of a host sends.
use ansible_operator.Base.{String, Result, arith}
use ansible_operator.Api.{AnsibleHost, Condition}
use ansible_operator.Kube.{Platform, done}
use ansible_operator.Kube.Within.{
  Within, Within-weaken, Within-pure, Within-read, Within-with_error, Within-if, Within-bind,
  Within-trying,
}
use ansible_operator.VarsConfigMap.Within.{ensure_vars-Within}
use ansible_operator.Ssh.Keyscan.{Network, Arrival}
use ansible_operator.Host.Status.{push_status, put_ready, set_status_ready, set_status_not_ready}
use ansible_operator.Host.Secrets.{create_host_keys_secret, ensure_host_keys_secret_exists}
use ansible_operator.Host.Reconcile.{
  requeue, not_ready, finish, ensure_vars_config_map, with_vars, with_host_keys, reconcile_host,
}

module _ (P : Platform) (N : Network) (arrival : Arrival N)
    (parse_private_key : String → Result (Unit {0})) where
  put_ready-Within : (c : Condition) → Within 1 (put_ready P c)
  unfolding put_ready push_status
  put_ready-Within c = record { at = λ s. ground arith }

  not_ready-Within :
      (reason message : String) → Within 1 (not_ready P N arrival parse_private_key reason message)
  unfolding not_ready set_status_not_ready
  not_ready-Within reason message =
      Within-trying 1 0 _ _ _ (put_ready-Within _) (λ _. Within-pure requeue)
        (λ _. Within-pure requeue)

  finish-Within : Within 1 (finish P N arrival parse_private_key)
  unfolding finish set_status_ready
  finish-Within =
      Within-bind 1 0 _ _ (Within-with_error 1 _ _ (put_ready-Within _)) (λ _. Within-pure done)

  with_vars-Within : (host : AnsibleHost) → Within 3 (with_vars P N arrival parse_private_key host)
  unfolding with_vars ensure_vars_config_map
  with_vars-Within host =
      Within-trying 2 1 _ _ _ (ensure_vars-Within P "AnsibleHost" host.meta host.spec.host_vars)
        (λ e. not_ready-Within _ _) (λ _. finish-Within)

  ensure_host_keys-Within :
      (host : AnsibleHost) → Within 1 (ensure_host_keys_secret_exists P N arrival host)
  unfolding ensure_host_keys_secret_exists create_host_keys_secret
  ensure_host_keys-Within host = record { at = λ s. ground arith }

  with_host_keys-Within :
      (host : AnsibleHost) → Within 4 (with_host_keys P N arrival parse_private_key host)
  unfolding with_host_keys
  with_host_keys-Within host =
      Within-trying 1 3 _ _ _
        (Within-if 1 _ _ _ (Within-weaken 0 1 _ (omega arith) (Within-pure tt))
          (ensure_host_keys-Within host))
        (λ e. Within-weaken 1 3 _ (omega arith) (not_ready-Within _ _)) (λ _. with_vars-Within host)

  -- However it ends, the reconcile of a host sends at most four write requests.
  pub reconcile_host-Within :
      (host : AnsibleHost) → Within 4 (reconcile_host P N arrival parse_private_key host)
  unfolding reconcile_host
  reconcile_host-Within host =
      let not_yet = λ (reason message : String).
        Within-weaken 1 4 _ (omega arith) (not_ready-Within reason message) in
      Within-trying 0 4 _ _ _ (Within-read _) (λ e. not_yet _ _)
        (λ there. Within-if 4 there _ _ (with_host_keys-Within host) (not_yet _ _))
