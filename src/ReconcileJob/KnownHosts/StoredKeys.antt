-- ===== src/ReconcileJob/KnownHosts/StoredKeys.antt =====
-- The host keys that the host controller stores, read back as lines of the known_hosts file.
use Prim.Native.Char.{code}
use text.Mathlib.TextLemmas.{append_assoc, nil-append, cons-append}
use ansible_operator.Base.{
  String, ◌<>◌, ◌≡◌, ◌≢◌, ap, ◌∙◌, some, List, [], ◌∷◌, map, All, arith, ok, Bool-cases, inl, inr,
}
use ansible_operator.Base.Maps.{lookup}
use ansible_operator.Base.Texts.{split_lines, char-append}
use ansible_operator.Base.Sorting.{sorted, insert_sorted, text_le}
use ansible_operator.Api.{AnsibleHost}
use ansible_operator.Kube.{Platform, Secret}
use ansible_operator.Ssh.Keyscan.{Network, concatenated, host_keys_to_sorted_string}
use ansible_operator.ReconcileJob.KnownHosts.{prepend_host, known_hosts_of_secret}
use ansible_operator.ReconcileJob.KnownHosts.Lines.{entries_of, prepend_host-entries_of}

-- no newline
abbrev pub OneLine : String → Type 0
OneLine String.[] = Unit
OneLine (String.◌∷◌ c s) = (code c ≢ 10) × OneLine s

-- `ssh.MarshalAuthorizedKey`: one line that is not empty, and a newline.
pub record AuthorizedKeys (N : Network) : Type 0 where
  pub line : N.PublicKey → String
  pub is_line : (k : N.PublicKey) → N.marshal_authorized_key k ≡ line k <> "\n"
  pub one_line : (k : N.PublicKey) → OneLine (line k)
  pub not_empty : (k : N.PublicKey) → line k ≢ ""

-- a line that is not empty, with its newline
abbrev IsLine : String → Type 0
IsLine text = (line : String) × (text ≡ line <> "\n") × OneLine line × (line ≢ "")

split_lines_newline : (rest : String) → split_lines ("\n" <> rest) ≡ "" ∷ split_lines rest
unfolding split_lines
split_lines_newline rest = ap split_lines (char-append "\n" rest)

split_lines_line :
    (line rest : String)
    → OneLine line
    → split_lines (line <> ("\n" <> rest)) ≡ line ∷ split_lines rest
unfolding split_lines
split_lines_line String.[] rest _ =
    ap split_lines (nil-append ("\n" <> rest)) ∙ split_lines_newline rest
split_lines_line (String.◌∷◌ c s) rest (ne, one) =
    ap split_lines (cons-append c s ("\n" <> rest))
    ∙ ground (arith, ne, split_lines_line s rest one)

entries_of-concatenated :
    (host : String) (texts : List String)
    → All IsLine texts
    → entries_of host (split_lines (concatenated texts))
      ≡ concatenated (map (λ text. host <> (" " <> text)) texts)
unfolding split_lines
entries_of-concatenated host [] _ = ground arith
entries_of-concatenated host (text ∷ texts) ((line, e, one, ne), rest) =
    ap (λ s. entries_of host (split_lines s))
      (ap (λ s. s <> concatenated texts) e ∙ append_assoc line "\n" (concatenated texts))
    ∙ ap (entries_of host) (split_lines_line line (concatenated texts) one)
    ∙ ground (arith, ne, e, entries_of-concatenated host texts rest)

All-insert_sorted :
    (P : String → Type 0) (a : String) (l : List String) → P a → All P l → All P (insert_sorted a l)
unfolding insert_sorted
All-insert_sorted P a [] p _ = (p, tt)
All-insert_sorted P a (b ∷ l) p (q, h) = elim (Bool-cases (text_le a b)) [
  | inl le ↦ rw le (p, (q, h))
  | inr gt ↦ rw gt (q, All-insert_sorted P a l p h)
]

All-sorted : (P : String → Type 0) (l : List String) → All P l → All P (sorted l)
unfolding sorted
All-sorted P [] _ = tt
All-sorted P (a ∷ l) (p, h) = All-insert_sorted P a (sorted l) p (All-sorted P l h)

module _ (N : Network) (keys : AuthorizedKeys N) where
  All-IsLine : (ks : List N.PublicKey) → All IsLine (map N.marshal_authorized_key ks)
  All-IsLine [] = tt
  All-IsLine (k ∷ ks) =
      ((keys.line k, keys.is_line k, keys.one_line k, keys.not_empty k), All-IsLine ks)

  -- If an authorized key is one line that is not empty and a newline: where a secret has under `host_keys` the text
  -- that the host controller makes of the keys `ks`, the known hosts that the reconcile job makes of the
  -- secret are, for each of these keys in the order of their texts, the host's address, a space and the key with its newline, and no
  -- more.
  pub known_hosts_of_stored_keys :
      (P : Platform) (host : AnsibleHost) (secret : Secret) (ks : List N.PublicKey)
      → lookup "host_keys" secret.data_map ≡ some (host_keys_to_sorted_string N ks)
      → known_hosts_of_secret P host secret
        ≡ ok (
            concatenated (
              map
                (λ text. host.spec.connection.host <> (" " <> text))
                (sorted (map N.marshal_authorized_key ks))))
  unfolding known_hosts_of_secret host_keys_to_sorted_string
  known_hosts_of_stored_keys P host secret ks stored =
      let address = host.spec.connection.host in
      let texts = sorted (map N.marshal_authorized_key ks) in
      let made : known_hosts_of_secret P host secret
          ≡ ok (prepend_host address (split_lines (concatenated texts)) "") =
        ground (arith, stored) in
      made
      ∙ ap ok (
          prepend_host-entries_of address (split_lines (concatenated texts)) ""
          ∙ nil-append (entries_of address (split_lines (concatenated texts)))
          ∙ entries_of-concatenated address texts (All-sorted IsLine _ (All-IsLine ks)))
