-- ===== src/Host/Secrets.antt =====
-- The secrets of a host: the private key that must be there, and the host keys, which are scanned
-- once and then trusted.
use ansible_operator.Base.{
  String, Bool, true, false, none, some, [], ◌∷◌, not_found, other, Result, ok, err, panic, errorf,
  wrap, map_error, Exec, pure, fail, lift, with_error, trying, ◌>>=◌, ◌>>◌, if◌then◌else◌, ◌==◌,
}
use ansible_operator.Base.Maps.{lookup}
use ansible_operator.Api.{ObjectKey, LocalObjectReference, AnsibleHost, named}
use ansible_operator.Kube.{Platform, Session, Secret, create_secret, read, send}
use ansible_operator.Ssh.Keyscan.{Network, Arrival, scan_host, host_keys_to_sorted_string}

abbrev pub ssh_key_secret_key : String
ssh_key_secret_key = "ssh_key"

abbrev pub host_keys_key : String
host_keys_key = "host_keys"

abbrev pub secret_key_of : AnsibleHost → LocalObjectReference → ObjectKey
secret_key_of host ref = record { namespace = host.meta.namespace; name = ref.name }

-- `cryptoSSH.ParsePrivateKey`: the error, if the bytes are no key
module _ (P : Platform) (parse_private_key : String → Result (Unit {0})) where
  unfoldable pub check_private_key : Secret → Result Bool
  check_private_key secret = elim (lookup ssh_key_secret_key secret.data_map) [
    | none ↦ err (errorf "private key secret is missing 'ssh_key' data or it is empty")
    | some key_data ↦
        if key_data == ""
        then err (errorf "private key secret is missing 'ssh_key' data or it is empty")
        else elim (parse_private_key key_data) [
          | ok parsed ↦ ok true
          | err e ↦ err (wrap "failed to parse private key" e)
          | panic ↦ panic
        ]
  ]

  unfoldable pub host_private_key_secret_exists : AnsibleHost → P.State → Result Bool
  unfolding check_private_key
  host_private_key_secret_exists host s =
      elim (P.get_secret (secret_key_of host host.spec.ssh.ssh_key_secret_ref) s) [
        | ok secret ↦ check_private_key secret
        | err e ↦ elim e.reason [
          | not_found ↦ ok false
          | other ↦ err (wrap "failed to get private key secret" e)
        ]
        | panic ↦ panic
      ]

module _ (N : Network) (arrival : Arrival N) where
  unfoldable pub get_host_keys : AnsibleHost → Result String
  get_host_keys host =
      elim (map_error (wrap "failed to scan host keys")
        (scan_host N arrival host.spec.connection.host host.spec.connection.port)) [
          | ok keys ↦ ok (host_keys_to_sorted_string N keys)
          | err e ↦ err e
          | panic ↦ panic
        ]

module _ (P : Platform) (N : Network) (arrival : Arrival N) where
  unfoldable pub create_host_keys_secret : AnsibleHost → Exec (Session P AnsibleHost) (Unit {0})
  create_host_keys_secret host = do
    host_keys ← with_error (wrap "failed to get host keys") (lift (get_host_keys N arrival host))
    meta ← with_error (wrap "failed to set controller reference") (
        lift (
          P.set_controller_reference "AnsibleHost" host.meta
            (named host.spec.ssh.ssh_host_key_secret_ref.name host.meta.namespace)))
    let secret : Secret = record { meta = meta; data_map = (host_keys_key, host_keys) ∷ [] }
    with_error (wrap "failed to create host keys secret")
        (send (create_secret secret) (P.create_secret secret))
    pure tt

  unfoldable pub ensure_host_keys_secret_exists :
      AnsibleHost → Exec (Session P AnsibleHost) (Unit {0})
  ensure_host_keys_secret_exists host =
      trying (read (P.get_secret (secret_key_of host host.spec.ssh.ssh_host_key_secret_ref)))
        (λ e. elim e.reason [
          | not_found ↦
              with_error (wrap "failed to create host keys secret") (create_host_keys_secret host)
          | other ↦ fail (wrap "failed to get host keys secret" e)
        ])
        (λ _. pure tt)
