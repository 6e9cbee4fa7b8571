-- ===== src/ReconcileJob/KnownHosts/Lines.antt =====
-- The lines of the known_hosts file, against the lines of the secrets.
use text.Mathlib.TextLemmas.{append_assoc, append-nil, nil-append}
use mathlib.Core.List.{append_assoc as append_assoc_list, append-nil as append-nil_list}
use ansible_operator.Base.{
  Option-cases, Result-cases, is_ok, is_err, is_panic, inl, inr, not_found, other, ◌&&◌, String,
  ◌<>◌, ◌≡◌, sym, ap, ◌∙◌, Bool, true, false, none, some, List, [], ◌∷◌, ◌++◌, arith, Result, ok,
  err, panic, if◌then◌else◌, ◌==◌,
}
use ansible_operator.Base.Maps.{lookup}
use ansible_operator.Base.Texts.{split_lines}
use ansible_operator.Api.{AnsibleHost}
use ansible_operator.Kube.{Platform, Secret}
use ansible_operator.ReconcileJob.KnownHosts.{
  prepend_host, known_hosts_of_secret, get_known_hosts_lines_for_host, collect_known_hosts,
  get_known_hosts_for_reconcile_job,
}

-- one line of the file
abbrev pub entry : String → String → String
entry host line = host <> (" " <> (line <> "\n"))

-- The lines that are not empty, each with the host before it.
abbrev pub entries_of : String → List String → String
entries_of host [] = ""
entries_of host (line ∷ lines) =
    let rest = entries_of host lines in if line == "" then rest else entry host line <> rest

pub prepend_host-entries_of :
    (host : String) (lines : List String) (host_keys : String)
    → prepend_host host lines host_keys ≡ host_keys <> entries_of host lines
unfolding prepend_host
prepend_host-entries_of host [] host_keys = sym (append-nil host_keys)
prepend_host-entries_of host (line ∷ lines) host_keys = ground (
  arith,
  prepend_host-entries_of host lines host_keys,
  prepend_host-entries_of host lines (host_keys <> entry host line),
  append_assoc host_keys (entry host line) (entries_of host lines),
)

module _ (P : Platform) where
  -- The server has the host's secret with host keys in it, or says that there is no such secret.
  abbrev pub is_readable : Result Secret → Bool
  is_readable (ok secret) = elim (lookup "host_keys" secret.data_map) [
    | none ↦ false
    | some v ↦ true
  ]
  is_readable (err e) = elim e.reason [ not_found ↦ true | other ↦ false ]
  is_readable panic = false

  -- What the secret says of the host.
  abbrev pub text_of_secret : String → Result Secret → String
  text_of_secret host (ok secret) = elim (lookup "host_keys" secret.data_map) [
    | none ↦ ""
    | some v ↦ entries_of host (split_lines v)
  ]
  text_of_secret host (err e) = ""
  text_of_secret host panic = ""

  abbrev pub host_keys_secret : AnsibleHost → P.State → Result Secret
  host_keys_secret host s =
      P.get_secret
        (record {
          namespace = host.meta.namespace;
          name = host.spec.ssh.ssh_host_key_secret_ref.name;
        })
        s

  lines_of_found :
      (host : AnsibleHost) (s : P.State) (secret : Secret) (v : String)
      → host_keys_secret host s ≡ ok secret
      → lookup "host_keys" secret.data_map ≡ some v
      → get_known_hosts_lines_for_host P host s
        ≡ ok (text_of_secret host.spec.connection.host (host_keys_secret host s))
  unfolding get_known_hosts_lines_for_host known_hosts_of_secret
  lines_of_found host s secret v found there =
      let name = host.spec.connection.host in
      let got : get_known_hosts_lines_for_host P host s
          ≡ ok (prepend_host name (split_lines v) "") =
        ground (arith, found, there) in
      let wanted : text_of_secret name (host_keys_secret host s) ≡ entries_of name (split_lines v) =
        ground (arith, found, there) in
      got
      ∙ ap ok (
          prepend_host-entries_of name (split_lines v) ""
          ∙ nil-append (entries_of name (split_lines v))
          ∙ sym wanted)

  lines_for_host :
      (host : AnsibleHost) (s : P.State)
      → is_readable (host_keys_secret host s) ≡ true
      → get_known_hosts_lines_for_host P host s
        ≡ ok (text_of_secret host.spec.connection.host (host_keys_secret host s))
  unfolding get_known_hosts_lines_for_host known_hosts_of_secret
  lines_for_host host s h = elim (Result-cases (host_keys_secret host s)) [
    | is_ok secret found ↦ elim (Option-cases (lookup "host_keys" secret.data_map)) [
      | inl missing ↦ ground (arith, found, missing)
      | inr (v, there) ↦ lines_of_found host s secret v found there
    ]
    | is_err e found ↦ ground (arith, found)
    | is_panic found ↦ ground (arith, found)
  ]

  abbrev pub all_readable : List AnsibleHost → P.State → Bool
  all_readable [] s = true
  all_readable (host ∷ hosts) s = is_readable (host_keys_secret host s) && all_readable hosts s

  -- The texts of the hosts that have one.
  abbrev pub texts_of_hosts : List AnsibleHost → P.State → List String
  texts_of_hosts [] s = []
  texts_of_hosts (host ∷ hosts) s =
      let rest = texts_of_hosts hosts s in
      let text = text_of_secret host.spec.connection.host (host_keys_secret host s) in
      if text == "" then rest else text ∷ rest

  collect_known_hosts-texts :
      (hosts : List AnsibleHost) (secrets : List String) (s : P.State)
      → all_readable hosts s ≡ true
      → collect_known_hosts P hosts secrets s ≡ ok (secrets ++ texts_of_hosts hosts s)
  unfolding collect_known_hosts
  collect_known_hosts-texts [] secrets s h = simp append-nil_list
  collect_known_hosts-texts (host ∷ hosts) secrets s h =
      let text = text_of_secret host.spec.connection.host (host_keys_secret host s) in
      ground (
        arith,
        lines_for_host host s,
        collect_known_hosts-texts hosts secrets s,
        collect_known_hosts-texts hosts (secrets ++ (text ∷ [])) s,
        append_assoc_list secrets (text ∷ []) (texts_of_hosts hosts s),
      )

  -- If the server has, for every host, the secret of its host keys with its entry `host_keys`, or says
  -- that there is none, then the known hosts are one text for each host that has a line: its lines
  -- that are not empty, in their order, each with the address of the host before it.
  pub get_known_hosts_for_reconcile_job_texts :
      (hosts : List AnsibleHost) (s : P.State)
      → all_readable hosts s ≡ true
      → get_known_hosts_for_reconcile_job P hosts s ≡ ok (texts_of_hosts hosts s)
  unfolding get_known_hosts_for_reconcile_job
  get_known_hosts_for_reconcile_job_texts hosts s = collect_known_hosts-texts hosts [] s
