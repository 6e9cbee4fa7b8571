-- ===== src/ReconcileJob/KnownHosts.antt =====
-- `ensureKnownHostsSecretExists`: the known_hosts file of the runner, from the host key secrets.
pub mod Lines
pub mod StoredKeys
use ansible_operator.Base.{
  String, ◌<>◌, none, some, List, [], ◌∷◌, ◌++◌, not_found, other, Result, ok, err, panic, errorf,
  wrap, Exec, with_error, ◌>>=◌, ◌==◌, if◌then◌else◌,
}
use ansible_operator.Base.Maps.{lookup}
use ansible_operator.Base.Texts.{split_lines, join}
use ansible_operator.Api.{AnsibleHost, AnsibleReconcileJob}
use ansible_operator.Kube.{Platform, Session, Secret, read}
use ansible_operator.ReconcileJob.ConfigMaps.{ensure_configmap_with_data}

abbrev pub known_hosts_config_map_name_suffix : String
known_hosts_config_map_name_suffix = "-known-hosts"

abbrev pub known_hosts_config_map_key : String
known_hosts_config_map_key = "known_hosts"

-- the loop over the lines, which appends to `hostKeys`
unfoldable pub prepend_host : String → List String → String → String
prepend_host host [] host_keys = host_keys
prepend_host host (line ∷ lines) host_keys =
    prepend_host host lines
      (if line == "" then host_keys else host_keys <> (host <> (" " <> (line <> "\n"))))

module _ (P : Platform) where
  -- ` NAMESPACE/SECRET for host NAMESPACE/NAME`
  abbrev secret_of_host : AnsibleHost → String
  secret_of_host host =
      host.meta.namespace
      <> ("/"
          <> (host.spec.ssh.ssh_host_key_secret_ref.name
              <> (" for host " <> (host.meta.namespace <> ("/" <> host.meta.name)))))

  unfoldable pub known_hosts_of_secret : AnsibleHost → Secret → Result String
  unfolding prepend_host split_lines
  known_hosts_of_secret host secret = elim (lookup "host_keys" secret.data_map) [
    | none ↦
        err (errorf ("secret " <> (secret_of_host host <> " does not contain 'host_keys' key")))
    | some secret_value ↦ ok (prepend_host host.spec.connection.host (split_lines secret_value) "")
  ]

  unfoldable pub get_known_hosts_lines_for_host : AnsibleHost → P.State → Result String
  get_known_hosts_lines_for_host host s =
      elim (P.get_secret
        (record {
          namespace = host.meta.namespace;
          name = host.spec.ssh.ssh_host_key_secret_ref.name;
        })
        s) [
          | ok secret ↦ known_hosts_of_secret host secret
          | err e ↦ elim e.reason [
            | not_found ↦ ok ""
            | other ↦ err (wrap ("failed to get secret " <> secret_of_host host) e)
          ]
          | panic ↦ panic
        ]

  -- the loop over the hosts, which appends to `secrets`
  unfoldable pub collect_known_hosts :
      List AnsibleHost → List String → P.State → Result (List String)
  collect_known_hosts [] secrets s = ok secrets
  collect_known_hosts (host ∷ hosts) secrets s = elim (get_known_hosts_lines_for_host host s) [
    | ok secret ↦
        collect_known_hosts hosts (if secret == "" then secrets else secrets ++ (secret ∷ [])) s
    | err e ↦ err (
        wrap
          ("failed to get known hosts secret for host "
            <> (host.meta.namespace <> ("/" <> host.meta.name)))
          e)
    | panic ↦ panic
  ]

  unfoldable pub get_known_hosts_for_reconcile_job :
      List AnsibleHost → P.State → Result (List String)
  unfolding collect_known_hosts
  get_known_hosts_for_reconcile_job hosts s = collect_known_hosts hosts [] s

  unfoldable pub ensure_known_hosts_secret_exists :
      {T : Type 0} → AnsibleReconcileJob → Exec (Session P T) (Unit {0})
  ensure_known_hosts_secret_exists job = do
    hosts ←
        with_error (wrap ("failed to list AnsibleHosts in namespace " <> job.meta.namespace))
          (read (P.list_hosts job.meta.namespace))
    known_hosts ←
        with_error
          (wrap (
            "failed to get known hosts for reconcile job "
            <> (job.meta.namespace <> ("/" <> job.meta.name))))
          (read (get_known_hosts_for_reconcile_job hosts))
    with_error (wrap "failed to ensure known hosts configmap") (
        ensure_configmap_with_data P (job.meta.name <> known_hosts_config_map_name_suffix)
          ((known_hosts_config_map_key, join "\n" known_hosts) ∷ []) job.meta)
