-- ===== src/Host/Reconcile.antt =====
-- `Reconcile` of the host controller. Its errors are not returned: they set `Ready` to false and
-- ask for another reconcile in 30 seconds.
pub mod Known
pub mod Outcome
pub mod Convergence
pub mod Calm
pub mod Within
pub mod FirstUse
use ansible_operator.Base.{
  String, ◌<>◌, Bool, Error, not_found, other, Result, ok, err, panic, wrap, Exec, pure, with_error,
  trying, handling, ◌>>=◌, ◌>>◌, if◌then◌else◌,
}
use ansible_operator.Api.{ObjectKey, AnsibleHost}
use ansible_operator.Kube.{Platform, Session, ReconcileResult, done, read, this}
use ansible_operator.VarsConfigMap.{ensure_vars}
use ansible_operator.Ssh.Keyscan.{Network, Arrival}
use ansible_operator.Host.Status.{set_status_ready, set_status_not_ready}
use ansible_operator.Host.Secrets.{host_private_key_secret_exists, ensure_host_keys_secret_exists}

abbrev pub requeue : ReconcileResult
requeue = record { requeue_after = 30 }

module _ (P : Platform) (N : Network) (arrival : Arrival N)
    (parse_private_key : String → Result (Unit {0})) where
  -- A failed status update is logged, and does not change the result.
  unfoldable pub not_ready : String → String → Exec (Session P AnsibleHost) ReconcileResult
  not_ready reason message =
      trying (set_status_not_ready P reason message) (λ _. pure requeue) (λ _. pure requeue)

  -- the last step
  unfoldable pub finish : Exec (Session P AnsibleHost) ReconcileResult
  finish = do
    with_error (wrap "failed to update AnsibleHost status") (set_status_ready P)
    pure done

  unfoldable pub ensure_vars_config_map : AnsibleHost → Exec (Session P AnsibleHost) (Unit {0})
  ensure_vars_config_map host = ensure_vars P "AnsibleHost" host.meta host.spec.host_vars

  -- from the vars config map on
  unfoldable pub with_vars : AnsibleHost → Exec (Session P AnsibleHost) ReconcileResult
  with_vars host =
      trying (ensure_vars_config_map host)
        (λ e.
          not_ready "VarsConfigMapError" ("Failed to ensure vars configmap exists: " <> e.message))
        (λ _. finish)

  -- from the host keys on
  unfoldable pub with_host_keys : AnsibleHost → Exec (Session P AnsibleHost) ReconcileResult
  with_host_keys host =
      trying
        (if host.spec.ssh.ignore_host_key
          then pure tt
          else ensure_host_keys_secret_exists P N arrival host)
        (λ e.
          not_ready "HostKeysSecretError"
            ("Failed to ensure host keys secret exists: " <> e.message))
        (λ _. with_vars host)

  -- `Reconcile` on a host that was fetched
  unfoldable pub reconcile_host : AnsibleHost → Exec (Session P AnsibleHost) ReconcileResult
  reconcile_host host =
      trying (read (host_private_key_secret_exists P parse_private_key host))
        (λ e.
          not_ready "PrivateKeySecretError"
            ("Failed to check if private key secret exists: " <> e.message))
        (λ private_key_secret_exists.
          if private_key_secret_exists
          then with_host_keys host
          else not_ready "PrivateKeySecretMissing" "The private key secret does not exist")

  unfoldable pub reconcile : ObjectKey → Exec (Session P AnsibleHost) ReconcileResult
  reconcile key s = elim (P.get_host key s.server) [
    | ok host ↦ reconcile_host host (record s { object = host })
    | err e ↦ elim e.reason [ not_found ↦ (ok done, s) | other ↦ (err e, s) ]
    | panic ↦ (panic, s)
  ]
