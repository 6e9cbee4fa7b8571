-- ===== src/Ssh/Dedup.antt =====
-- The loop of `ScanHost` against a plain reading: the keys that arrived, each one once.
use mathlib.Core.List.{append_assoc, append-nil, filter_map}
use ansible_operator.Base.{
  String, ◌≡◌, refl, sym, Bool, true, false, Option, List, [], ◌∷◌, ◌++◌, arith, Error, ◌==◌,
  Option-cases, ap, ◌||◌, inl, inr,
}
use ansible_operator.Ssh.Keyscan.{Network, ProbeResult, collect, is_seen, first_error}

module _ (N : Network) where
  -- the keys among the results
  abbrev pub present : List (ProbeResult N.PublicKey) → List N.PublicKey
  present = filter_map (λ r. r.key)

  -- the keys that are not seen before, by their wire form
  unfoldable pub dedup : List String → List N.PublicKey → List N.PublicKey
  dedup seen [] = []
  dedup seen (key ∷ keys) = elim (is_seen N (N.marshal key) seen) [
    | true ↦ dedup seen keys
    | false ↦ key ∷ dedup (N.marshal key ∷ seen) keys
  ]

  -- The loop appends the deduplicated keys to those that it has.
  pub keys-collect :
      (rs : List (ProbeResult N.PublicKey)) (seen : List String) (keys : List N.PublicKey)
      (error : Option Error)
      → (collect N rs seen keys error).keys ≡ keys ++ dedup seen (present rs)
  unfolding collect dedup filter_map
  keys-collect [] seen keys error = sym (append-nil keys)
  keys-collect (r ∷ rest) seen keys error = elim (Option-cases r.key) [
    | inl no_key ↦ ground (arith, keys-collect rest seen keys (first_error N error r.error))
    | inr (key, has_key) ↦ ground (
      arith,
      keys-collect rest seen keys error,
      keys-collect rest (N.marshal key ∷ seen) (keys ++ (key ∷ [])) error,
      append_assoc keys (key ∷ []) (dedup (N.marshal key ∷ seen) (present rest)),
    )
  ]

  -- Only the set of seen keys matters.
  pub dedup-ext :
      (keys : List N.PublicKey) (s t : List String)
      → ((k : String) → is_seen N k s ≡ is_seen N k t)
      → dedup s keys ≡ dedup t keys
  unfolding dedup
  dedup-ext [] s t same = refl
  dedup-ext (key ∷ keys) s t same = ground (
    arith,
    same (N.marshal key),
    dedup-ext keys s t same,
    dedup-ext keys (N.marshal key ∷ s) (N.marshal key ∷ t)
        (λ k. ap (λ (b : Bool). N.marshal key == k || b) (same k)),
  )

  -- No key is returned twice.
  abbrev pub Unseen : List String → List N.PublicKey → Type 0
  Unseen seen [] = Unit
  Unseen seen (key ∷ keys) =
      (is_seen N (N.marshal key) seen ≡ false) × Unseen (N.marshal key ∷ seen) keys

  pub dedup-Unseen : (seen : List String) (keys : List N.PublicKey) → Unseen seen (dedup seen keys)
  unfolding dedup
  dedup-Unseen seen [] = tt
  dedup-Unseen seen (key ∷ keys) =
      ground (arith, dedup-Unseen seen keys, dedup-Unseen (N.marshal key ∷ seen) keys)
