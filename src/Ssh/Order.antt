-- ===== src/Ssh/Order.antt =====
-- The host keys that are stored do not depend on the order in which the goroutines answer.
use mathlib.Core.HLevel.{hedberg}
use mathlib.Core.List.{List-discrete, Perm, Permᴰ}
use mathlib.Core.List.Perm
use mathlib.Core.Logic.{∥∥₁_elim}
use ansible_operator.Base.{
  String, ◌≡◌, refl, sym, ap, ◌∙◌, true, Option, none, some, List, [], ◌∷◌, map, arith, ok, ℕ, err,
  panic, nonempty, if◌then◌else◌, string_dec, Error, Result,
}
use ansible_operator.Base.Sorting.{sorted, insert_sorted, insert_sorted_swap}
use ansible_operator.Ssh.Keyscan.{
  Network, Arrival, ProbeResult, is_seen, collect, collected, concatenated, scan_host,
  host_keys_to_sorted_string,
}
use ansible_operator.Ssh.Dedup.{present, dedup, dedup-ext, keys-collect}

texts_set : IsSet (List String)
texts_set = hedberg (List-discrete string_dec)

-- Keys with one wire form have one text.
pub record NetworkLaws (N : Network) : Type 0 where
  pub text_of_marshal :
      (k j : N.PublicKey)
      → N.marshal k ≡ N.marshal j
      → N.marshal_authorized_key k ≡ N.marshal_authorized_key j

module _ (N : Network) (laws : NetworkLaws N) where
  -- the sorted texts of the keys not seen before
  sorted_texts : List String → List N.PublicKey → List String
  sorted_texts seen keys = sorted (map N.marshal_authorized_key (dedup N seen keys))

  seen_swap :
      (seen : List String) (a b : N.PublicKey) (k : String)
      → is_seen N k (N.marshal a ∷ N.marshal b ∷ seen)
        ≡ is_seen N k (N.marshal b ∷ N.marshal a ∷ seen)
  seen_swap seen a b k = ground arith

  sorted_texts_swap :
      (seen : List String) (a b : N.PublicKey) (keys : List N.PublicKey)
      → sorted_texts seen (a ∷ b ∷ keys) ≡ sorted_texts seen (b ∷ a ∷ keys)
  unfolding sorted_texts dedup sorted
  sorted_texts_swap seen a b keys = ground (
    arith,
    laws.text_of_marshal a b,
    dedup-ext N keys (N.marshal a ∷ N.marshal b ∷ seen) (N.marshal b ∷ N.marshal a ∷ seen)
        (seen_swap seen a b),
    insert_sorted_swap (N.marshal_authorized_key a) (N.marshal_authorized_key b)
        (sorted_texts (N.marshal a ∷ N.marshal b ∷ seen) keys),
  )

  sorted_texts_of_permᴰ :
      {l m : List N.PublicKey}
      → Permᴰ l m
      → (seen : List String) → sorted_texts seen l ≡ sorted_texts seen m
  unfolding sorted_texts dedup sorted
  sorted_texts_of_permᴰ Permᴰ.nil seen = refl
  sorted_texts_of_permᴰ (Permᴰ.cons {a} {b} e p) seen =
      ground (arith, e, sorted_texts_of_permᴰ p seen, sorted_texts_of_permᴰ p (N.marshal a ∷ seen))
  sorted_texts_of_permᴰ (Permᴰ.swap {a} {b} {l = l} e f) seen =
      cc (e, f, sorted_texts_swap seen a b l)
  sorted_texts_of_permᴰ (Permᴰ.trans p q) seen =
      sorted_texts_of_permᴰ p seen ∙ sorted_texts_of_permᴰ q seen

  sorted_texts_of_perm : {l m : List N.PublicKey} → Perm l m → sorted_texts [] l ≡ sorted_texts [] m
  sorted_texts_of_perm {l} {m} p =
      ∥∥₁_elim p (texts_set (sorted_texts [] l) (sorted_texts [] m)) λ d. sorted_texts_of_permᴰ d []

nonempty-insert_sorted : (a : String) (l : List String) → nonempty (insert_sorted a l) ≡ true
unfolding insert_sorted
nonempty-insert_sorted a [] = refl
nonempty-insert_sorted a (b ∷ l) = ground arith

module _ (N : Network) where
  -- The text that would be stored in the secret, if the scan finds a key.
  abbrev pub stored_text : Result (List N.PublicKey) → Option String
  stored_text (ok keys) = some (host_keys_to_sorted_string N keys)
  stored_text (err e) = none
  stored_text panic = none

  -- The same text, from the sorted texts alone.
  abbrev text_of : List String → Option String
  text_of texts = if nonempty texts then some (concatenated texts) else none

  abbrev texts : List N.PublicKey → List String
  texts keys = sorted (map N.marshal_authorized_key keys)

  stored_text-collected :
      (keys : List N.PublicKey) (error : Option Error)
      → stored_text (collected N (record { keys = keys; error = error })) ≡ text_of (texts keys)
  unfolding collected host_keys_to_sorted_string sorted
  stored_text-collected [] none = refl
  stored_text-collected [] (some e) = refl
  stored_text-collected (key ∷ keys) error =
      rw (nonempty-insert_sorted (N.marshal_authorized_key key) (texts keys))

  stored_text-collect :
      (rs : List (ProbeResult N.PublicKey))
      → stored_text (collected N (collect N rs [] [] none))
        ≡ text_of (texts (dedup N [] (present N rs)))
  stored_text-collect rs =
      let c = collect N rs [] [] none in
      stored_text-collected c.keys c.error
      ∙ ap (λ k. text_of (texts k)) (keys-collect N rs [] [] none)

module _ (N : Network) (laws : NetworkLaws N) where
  stored_text_of_perm :
      {l m : List (ProbeResult N.PublicKey)}
      → Perm l m
      → stored_text N (collected N (collect N l [] [] none))
        ≡ stored_text N (collected N (collect N m [] [] none))
  unfolding sorted_texts
  stored_text_of_perm {l} {m} p =
      stored_text-collect N l
      ∙ ap (text_of N) (sorted_texts_of_perm N laws (Perm.filter_map (λ r. r.key) p))
      ∙ sym (stored_text-collect N m)

-- The order of arrival only rearranges what arrives.
abbrev pub IsArrival : (N : Network) → Arrival N → Type 0
IsArrival N a = (l : List (ProbeResult N.PublicKey)) → Perm (a l) l

-- If keys with one wire form have one text: for any two orders in which the goroutines may answer,
-- the scan of a host has the same outcome for the secret, which is no text where no key is found, and
-- otherwise one and the same text.
pub scan_host_order :
    (N : Network) (laws : NetworkLaws N) (a b : Arrival N)
    → IsArrival N a
    → IsArrival N b
    → (host : String) (port : ℕ)
    → stored_text N (scan_host N a host port) ≡ stored_text N (scan_host N b host port)
unfolding scan_host
scan_host_order N laws a b pa pb host port =
    stored_text_of_perm N laws (Perm.trans (pa _) (Perm.symm (pb _)))
