-- ===== src/Base/Maps.antt =====
-- Go maps with string keys, as association lists with at most one entry for a key. A nil map is
-- `none`: it reads as an empty map, and a write to it panics.
use ansible_operator.Base.{
  ℕ, String, ◌≡◌, refl, ◌≢◌, Bool, true, false, ◌&&◌, Option, none, some, List, [], ◌∷◌, map, arith,
  if◌then◌else◌, ◌==◌, length, Result, ok, panic,
}
use Prim.Native.Nat.{compare, Ordering}

abbrev pub Map {ℓ} : Type ℓ → Type ℓ
Map V = List (String × V)

abbrev pub keys {ℓ} : {V : Type ℓ} → Map V → List String
keys = map (λ (k, _). k)

module _ {ℓ} {V : Type ℓ} where
  -- `v, ok := m[k]`
  unfoldable pub lookup : String → Map V → Option V
  lookup key [] = none
  lookup key ((found, value) ∷ rest) = if found == key then some value else lookup key rest

  -- `m[k] = v`
  unfoldable pub insert : String → V → Map V → Map V
  insert key value [] = (key, value) ∷ []
  insert key value ((found, old) ∷ rest) =
      if found == key then (key, value) ∷ rest else (found, old) ∷ insert key value rest

  pub lookup-insert :
      (key asked : String) (value : V) (m : Map V)
      → lookup asked (insert key value m) ≡ (if key == asked then some value else lookup asked m)
  unfolding lookup insert
  lookup-insert key asked value [] = refl
  lookup-insert key asked value ((found, old) ∷ rest) =
      ground (arith, lookup-insert key asked value rest)

  pub lookup-insert_self : (k : String) (v : V) (m : Map V) → lookup k (insert k v m) ≡ some v
  lookup-insert_self k v m = ground (arith, lookup-insert k k v m)

  -- Every key of the map differs from `k`.
  abbrev pub Absent : String → Map V → Type 0
  Absent k [] = Unit
  Absent k ((j, _) ∷ m) = (j ≢ k) × Absent k m

  abbrev pub NodupKeys : Map V → Type 0
  NodupKeys [] = Unit
  NodupKeys ((k, _) ∷ m) = Absent k m × NodupKeys m

-- A map of strings that may be nil, as `ConfigMap.Data`.
abbrev pub StringMap : Type 0
StringMap = Option (Map String)

abbrev pub entries : StringMap → Map String
entries none = []
entries (some m) = m

-- `m[k]`, which is the empty string where `k` is missing
unfoldable pub value_at : String → StringMap → String
value_at k m = elim (lookup k (entries m)) [ none ↦ "" | some v ↦ v ]

-- `m[k] = v`
unfoldable pub assign : String → String → StringMap → Result StringMap
assign k v none = panic
assign k v (some m) = ok (some (insert k v m))

abbrev equal_lengths : ℕ → ℕ → Bool
equal_lengths a b = elim (compare a b) [ Ordering.eq ↦ true | _ ↦ false ]

holds : String → Option String → Bool
holds v none = false
holds v (some w) = v == w

included : Map String → Map String → Bool
unfolding holds
included [] n = true
included ((k, v) ∷ m) n = holds v (lookup k n) && included m n

-- `maps.Equal`
unfoldable pub equal_maps : StringMap → StringMap → Bool
unfolding included
equal_maps a b =
    equal_lengths (length (entries a)) (length (entries b)) && included (entries a) (entries b)
