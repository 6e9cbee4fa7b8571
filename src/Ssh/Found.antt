-- ===== src/Ssh/Found.antt =====
-- What a scan of a host finds.
use ansible_operator.Base.{
  String, ℕ, Bool-cases, inl, inr, ◌≡◌, refl, sym, ap, ◌∙◌, Bool, true, false, ◌||◌, none, List, [],
  ◌∷◌, map, arith, ok, nonempty, succeeded, All,
}
use mathlib.Core.Path.{subst}
use ansible_operator.Ssh.Keyscan.{
  Network, Arrival, ProbeResult, Collected, is_seen, collect, collected, scan_host,
  scan_host_with_algos, ssh_key_probe_groups,
}
use ansible_operator.Ssh.Dedup.{present, dedup, keys-collect, Unseen, dedup-Unseen}

module _ (N : Network) where
  -- A key of the same wire form is among the seen or the keys.
  abbrev covered : List String → List N.PublicKey → N.PublicKey → Bool
  covered seen keys k = is_seen N (N.marshal k) seen || is_seen N (N.marshal k) (map N.marshal keys)

  covered-skip :
      (seen : List String) (keys : List N.PublicKey) (key k : N.PublicKey)
      → covered (N.marshal key ∷ seen) keys k ≡ covered seen (key ∷ keys) k
  covered-skip seen keys key k = ground arith

  All-covered-skip :
      (seen : List String) (keys : List N.PublicKey) (key : N.PublicKey) (ks : List N.PublicKey)
      → All (λ k. covered (N.marshal key ∷ seen) keys k ≡ true) ks
      → All (λ k. covered seen (key ∷ keys) k ≡ true) ks
  All-covered-skip seen keys key [] h = tt
  All-covered-skip seen keys key (k ∷ ks) (p, h) =
      (sym (covered-skip seen keys key k) ∙ p, All-covered-skip seen keys key ks h)

  dedup-again :
      (seen : List String) (key : N.PublicKey) (keys : List N.PublicKey)
      → is_seen N (N.marshal key) seen ≡ true
      → dedup N seen (key ∷ keys) ≡ dedup N seen keys
  unfolding dedup
  dedup-again seen key keys again = ground (arith, again)

  dedup-new :
      (seen : List String) (key : N.PublicKey) (keys : List N.PublicKey)
      → is_seen N (N.marshal key) seen ≡ false
      → dedup N seen (key ∷ keys) ≡ key ∷ dedup N (N.marshal key ∷ seen) keys
  unfolding dedup
  dedup-new seen key keys new = ground (arith, new)

  -- All of these keys are covered.
  abbrev AllCovered : List String → List N.PublicKey → List N.PublicKey → Type 0
  AllCovered seen found keys = All (λ k. covered seen found k ≡ true) keys

  dedup-covered :
      (seen : List String) (keys : List N.PublicKey) → AllCovered seen (dedup N seen keys) keys
  dedup-covered seen [] = tt
  dedup-covered seen (key ∷ keys) = elim (Bool-cases (is_seen N (N.marshal key) seen)) [
    | inl again ↦
        subst (λ found. AllCovered seen found (key ∷ keys)) (sym (dedup-again seen key keys again))
          (ground (arith, again), dedup-covered seen keys)
    | inr new ↦
        subst (λ found. AllCovered seen found (key ∷ keys)) (sym (dedup-new seen key keys new))
          (
            ground arith,
            All-covered-skip seen (dedup N (N.marshal key ∷ seen) keys) key keys
                (dedup-covered (N.marshal key ∷ seen) keys),
          )
  ]

  nonempty-dedup : (keys : List N.PublicKey) → nonempty (dedup N [] keys) ≡ nonempty keys
  unfolding dedup
  nonempty-dedup [] = refl
  nonempty-dedup (key ∷ keys) = refl

  collected-ok :
      (c : Collected N) (keys : List N.PublicKey) → collected N c ≡ ok keys → c.keys ≡ keys
  unfolding collected
  collected-ok c keys h = ground arith

  succeeded-collected : (c : Collected N) → succeeded (collected N c) ≡ nonempty c.keys
  unfolding collected
  succeeded-collected c = ground arith

  -- what the probes of a host send, in the order of arrival
  abbrev pub answered : Arrival N → String → ℕ → List (ProbeResult N.PublicKey)
  answered arrival host port = arrival (map (scan_host_with_algos N host port) ssh_key_probe_groups)

  -- Two keys of one wire form are never both in `keys`, and every key of `found` has one of its wire
  -- form in it.
  abbrev pub Covers : List N.PublicKey → List N.PublicKey → Type 0
  Covers keys found =
      Unseen N [] keys × All (λ k. is_seen N (N.marshal k) (map N.marshal keys) ≡ true) found

  -- If the scan of a host returns keys, then no two of them have the same wire form, and every key
  -- that a probe captured has one of its wire form among them.
  pub scan_host-Covers :
      (arrival : Arrival N) (host : String) (port : ℕ) (keys : List N.PublicKey)
      → scan_host N arrival host port ≡ ok keys
      → Covers keys (present N (answered arrival host port))
  unfolding scan_host
  scan_host-Covers arrival host port keys h =
      let rs = answered arrival host port in
      let same =
        sym (keys-collect N rs [] [] none) ∙ collected-ok (collect N rs [] [] none) keys h in
      rw (sym same) (dedup-Unseen N [] (present N rs), dedup-covered [] (present N rs))

  -- The scan of a host succeeds exactly if some probe captured a key.
  pub succeeded-scan_host :
      (arrival : Arrival N) (host : String) (port : ℕ)
      → succeeded (scan_host N arrival host port)
        ≡ nonempty (present N (answered arrival host port))
  unfolding scan_host
  succeeded-scan_host arrival host port =
      let rs = answered arrival host port in
      succeeded-collected (collect N rs [] [] none)
      ∙ ap nonempty (keys-collect N rs [] [] none)
      ∙ nonempty-dedup (present N rs)
