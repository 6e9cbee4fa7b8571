-- ===== src/Ssh/Keyscan.antt =====
-- `scanHostWithAlgos`, `ScanHost` and `HostKeysToSortedString`. The network, golang.org/x/crypto/ssh
-- and the order in which the goroutines answer are a parameter.
use Prim.Native.Nat.{ℕ}
use ansible_operator.Base.{
  String, ◌<>◌, Bool, true, false, ◌||◌, Option, none, some, List, [], ◌∷◌, ◌++◌, map, Error,
  Result, ok, err, errorf, wrap, ◌==◌,
}
use ansible_operator.Base.Sorting.{sorted}
use ansible_operator.Base.Texts.{decimal}

-- What a handshake did: the key that the callback was given, if it was called, and its error. A
-- handshake that succeeds has a connection, which is closed with an error or without.
pub record Handshake (K : Type 0) : Type 0 where
  pub captured : Option K
  pub error : Option Error
  pub close_connection : Option Error

-- What one goroutine sends: a key or none, an error or none.
pub record ProbeResult (K : Type 0) : Type 0 where
  pub key : Option K
  pub error : Option Error

pub record Network : Type 1 where
  pub PublicKey : Type 0
  -- `key.Marshal` and `ssh.MarshalAuthorizedKey`
  pub marshal : PublicKey → String
  pub marshal_authorized_key : PublicKey → String
  -- `DialContext`, `SetDeadline`, `NewClientConn` and `Close`, for a host, a port and the
  -- algorithms offered; a value is the call's error.
  pub dial : String → ℕ → List String → Option Error
  pub set_deadline : String → ℕ → List String → Option Error
  pub new_client_conn : String → ℕ → List String → Handshake PublicKey
  pub close : String → ℕ → List String → Option Error

-- The order in which the channel yields what the goroutines send: a rearrangement.
abbrev pub Arrival : Network → Type 0
Arrival N = List (ProbeResult N.PublicKey) → List (ProbeResult N.PublicKey)

abbrev pub ssh_key_probe_groups : List (List String)
ssh_key_probe_groups =
    ("ecdsa-sha2-nistp256" ∷ [])
    ∷ ("ecdsa-sha2-nistp384" ∷ [])
    ∷ ("ecdsa-sha2-nistp521" ∷ [])
    ∷ ("ssh-ed25519" ∷ [])
    ∷ ("ssh-rsa" ∷ "rsa-sha2-256" ∷ "rsa-sha2-512" ∷ [])
    ∷ []

abbrev pub no_keys_found : Error
no_keys_found = errorf "no keys found"

-- `fmt.Errorf("text: %w", e)` where `e` may be nil
abbrev wrap_option : String → Option Error → Error
wrap_option text none = errorf (text <> ": %!w(<nil>)")
wrap_option text (some e) = wrap text e

abbrev pub concatenated : List String → String
concatenated [] = ""
concatenated (s ∷ rest) = s <> concatenated rest

module _ (N : Network) where
  -- the deferred close, which reports its error only if there is no other
  unfoldable pub deferred_close : Option Error → ProbeResult N.PublicKey → ProbeResult N.PublicKey
  deferred_close none r = r
  deferred_close (some cerr) r = elim r.error [
    | none ↦ record r { error = some (wrap "failed to close connection" cerr) }
    | some e ↦ r
  ]

  abbrev failed : Error → ProbeResult N.PublicKey
  failed e = record { key = none; error = some e }

  -- what is returned after the handshake
  unfoldable pub take_key : String → Handshake N.PublicKey → ProbeResult N.PublicKey
  take_key address h = elim h.error [
    | none ↦ elim h.close_connection [
      | some e ↦ failed (wrap "failed to close SSH connection" e)
      | none ↦ elim h.captured [
        | none ↦ failed (wrap_option ("failed to capture host key from " <> address) none)
        | some key ↦ record { key = some key; error = none }
      ]
    ]
    | some e ↦ elim h.captured [
      | none ↦ failed (wrap_option ("failed to capture host key from " <> address) (some e))
      | some key ↦ record { key = some key; error = none }
    ]
  ]

  unfoldable pub scan_host_with_algos : String → ℕ → List String → ProbeResult N.PublicKey
  unfolding deferred_close take_key decimal
  scan_host_with_algos host port key_types =
      let address = host <> (":" <> decimal port) in
      elim (N.dial host port key_types) [
        | some e ↦ failed (wrap ("failed to connect to " <> address) e)
        | none ↦
            deferred_close (N.close host port key_types)
              (elim (N.set_deadline host port key_types) [
                | some e ↦ failed (wrap "failed to set connection deadline" e)
                | none ↦ take_key address (N.new_client_conn host port key_types)
              ])
      ]

  abbrev pub is_seen : String → List String → Bool
  is_seen key [] = false
  is_seen key (k ∷ seen) = k == key || is_seen key seen

  abbrev pub first_error : Option Error → Option Error → Option Error
  first_error (some e) new_error = some e
  first_error none new_error = new_error

  pub record Collected : Type 0 where
    pub keys : List N.PublicKey
    pub error : Option Error

  -- The loop that receives the results: `seen`, `keys` and `firsterror` are its variables.
  unfoldable pub collect :
      List (ProbeResult N.PublicKey) → List String → List N.PublicKey → Option Error → Collected
  collect [] seen keys error = record { keys = keys; error = error }
  collect (r ∷ rest) seen keys error = elim r.key [
    | none ↦ collect rest seen keys (first_error error r.error)
    | some key ↦ elim (is_seen (N.marshal key) seen) [
      | true ↦ collect rest seen keys error
      | false ↦ collect rest (N.marshal key ∷ seen) (keys ++ (key ∷ [])) error
    ]
  ]

  -- from `if len(keys) == 0` on
  unfoldable pub collected : Collected → Result (List N.PublicKey)
  collected c = elim c.keys [
    | [] ↦ elim c.error [ some e ↦ err e | none ↦ err no_keys_found ]
    | key ∷ keys ↦ ok (key ∷ keys)
  ]

  unfoldable pub scan_host : Arrival N → String → ℕ → Result (List N.PublicKey)
  unfolding collect collected scan_host_with_algos
  scan_host arrival host port =
      collected
        (collect (arrival (map (scan_host_with_algos host port) ssh_key_probe_groups)) [] [] none)

  unfoldable pub host_keys_to_sorted_string : List N.PublicKey → String
  unfolding sorted
  host_keys_to_sorted_string keys = concatenated (sorted (map N.marshal_authorized_key keys))
