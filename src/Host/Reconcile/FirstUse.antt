-- ===== src/Host/Reconcile/FirstUse.antt =====
-- Trust on first use: the host keys are scanned and stored once.
use ansible_operator.Base.{
  String, ◌≡◌, refl, ◌⊎◌, inl, inr, true, List, [], ◌∷◌, Bool-cases, Result-cases, is_ok, is_err,
  is_panic, arith, ok, Result,
}
use ansible_operator.Base.Post.{Keeps, keeps_rules}
use ansible_operator.Api.{AnsibleHost, Condition}
use ansible_operator.Kube.{
  Platform, Session, Secret, Request, create_config_map, update_config_map, create_secret,
  update_cron_job, apply_cron_job, update_host_status, update_group_status,
  update_reconcile_job_status,
}
use ansible_operator.VarsConfigMap.{ensure_vars, create_vars_config_map, update_vars}
use ansible_operator.Ssh.Keyscan.{Network, Arrival}
use ansible_operator.Host.Status.{put_ready, set_status_ready, set_status_not_ready}
use ansible_operator.Host.Secrets.{
  secret_key_of, host_private_key_secret_exists, ensure_host_keys_secret_exists,
}
use ansible_operator.Host.Reconcile.{
  not_ready, finish, with_vars, with_host_keys, reconcile_host, ensure_vars_config_map,
}

-- The secrets that are written.
abbrev pub secrets_written : List Request → List Secret
secrets_written [] = []
secrets_written (create_secret x ∷ rs) = x ∷ secrets_written rs
secrets_written (create_config_map x ∷ rs) = secrets_written rs
secrets_written (update_config_map x ∷ rs) = secrets_written rs
secrets_written (update_cron_job x ∷ rs) = secrets_written rs
secrets_written (apply_cron_job x ∷ rs) = secrets_written rs
secrets_written (update_host_status x ∷ rs) = secrets_written rs
secrets_written (update_group_status x ∷ rs) = secrets_written rs
secrets_written (update_reconcile_job_status x ∷ rs) = secrets_written rs

module _ (P : Platform) (N : Network) (arrival : Arrival N)
    (parse_private_key : String → Result (Unit {0})) where
  module _ (written : List Secret) where
    -- No secret is written, beyond those that were.
    abbrev NoMore : Session P AnsibleHost → Type 0
    NoMore s = secrets_written s.requests ≡ written

    put_ready-NoMore : (c : Condition) → Keeps NoMore (put_ready P c)
    unfolding put_ready
    put_ready-NoMore c = record { at = λ s h. ground arith }

    ensure_vars-NoMore :
        (host : AnsibleHost)
        → Keeps NoMore (ensure_vars_config_map P N arrival parse_private_key host)
    unfolding ensure_vars_config_map ensure_vars create_vars_config_map update_vars
    ensure_vars-NoMore host = record { at = λ s h. ground arith }

    not_ready-NoMore :
        (reason message : String)
        → Keeps NoMore (not_ready P N arrival parse_private_key reason message)
    unfolding not_ready set_status_not_ready
    not_ready-NoMore reason message = search (keeps_rules, put_ready-NoMore)

    finish-NoMore : Keeps NoMore (finish P N arrival parse_private_key)
    unfolding finish set_status_ready
    finish-NoMore = search (keeps_rules, put_ready-NoMore)

    with_vars-NoMore :
        (host : AnsibleHost) → Keeps NoMore (with_vars P N arrival parse_private_key host)
    unfolding with_vars
    with_vars-NoMore host =
        search (keeps_rules, ensure_vars-NoMore, not_ready-NoMore, finish-NoMore)

  -- The host keys are ignored, or the secret for them is there, whatever it holds.
  abbrev pub KeysSettled : AnsibleHost → P.State → Type 0
  KeysSettled host s =
      (host.spec.ssh.ignore_host_key ≡ true)
      ⊎ ((secret : Secret) × (P.get_secret
              (secret_key_of host host.spec.ssh.ssh_host_key_secret_ref) s
            ≡ ok secret))

  pub with_host_keys-eq-with_vars :
      (host : AnsibleHost) (s : Session P AnsibleHost)
      → KeysSettled host s.server
      → with_host_keys P N arrival parse_private_key host s
        ≡ with_vars P N arrival parse_private_key host s
  unfolding with_host_keys ensure_host_keys_secret_exists
  with_host_keys-eq-with_vars host s (inl ignored) = rw ignored
  with_host_keys-eq-with_vars host s (inr (secret, found)) =
      elim (Bool-cases host.spec.ssh.ignore_host_key) [
        | inl ignored ↦ rw ignored
        | inr checked ↦ rw (checked, found)
      ]

  -- If the spec of the host says to ignore host keys, or the server has a secret of the name for them,
  -- then a reconcile of the host writes no secret, however it ends. What the secret holds does not
  -- matter: stored host keys are not replaced, and a secret without host keys is not filled.
  pub reconcile_host_first_use :
      (host : AnsibleHost) (s : Session P AnsibleHost)
      → KeysSettled host s.server
      → secrets_written (reconcile_host P N arrival parse_private_key host s).1.requests
        ≡ secrets_written s.requests
  unfolding reconcile_host
  reconcile_host_first_use host s settled =
      elim (Result-cases (host_private_key_secret_exists P parse_private_key host s.server)) [
        | is_ok exists found ↦ elim (Bool-cases exists) [
          | inl there ↦
              rw (found, there, with_host_keys-eq-with_vars host s settled)
                ((with_vars-NoMore (secrets_written s.requests) host).at s refl)
          | inr missing ↦
              rw (found, missing) ((not_ready-NoMore (secrets_written s.requests) _ _).at s refl)
        ]
        | is_err e found ↦ rw found ((not_ready-NoMore (secrets_written s.requests) _ _).at s refl)
        | is_panic found ↦ rw found
      ]
