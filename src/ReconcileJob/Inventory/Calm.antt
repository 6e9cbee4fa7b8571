-- ===== src/ReconcileJob/Inventory/Calm.antt =====
-- The inventory of hosts that all say how to gain privileges is made without a panic.
use ansible_operator.Base.{
  String, ◌≡◌, refl, arith, true, none, some, List, [], ◌∷◌, Bool-cases, ◌==◌, inl, inr, All,
}
use ansible_operator.Base.Calm.{NoPanic}
use ansible_operator.Base.Maps.{Map, keys, lookup, insert, lookup-insert}
use ansible_operator.Api.{AnsibleHost, AnsibleGroup}
use ansible_operator.ReconcileJob.Inventory.Content.{hosts_by_name}
use ansible_operator.ReconcileJob.Inventory.Ensure.{construct_inventory_content}
use ansible_operator.ReconcileJob.Inventory.Resolution.{
  every, has_privilege, ending-inventory_content,
}

-- What the API type leaves open and `mapAnsibleHost` relies on.
abbrev pub Privileged : AnsibleHost → Type 0
Privileged host = elim host.spec.privilege [ none ↦ ⊥ | some p ↦ Unit ]

-- Every value that the map yields is privileged.
abbrev AllFound : Map AnsibleHost → Type 0
AllFound m = (name : String) (host : AnsibleHost) → lookup name m ≡ some host → Privileged host

AllFound-hosts_by_name :
    (hosts : List AnsibleHost) (m : Map AnsibleHost)
    → All Privileged hosts
    → AllFound m
    → AllFound (hosts_by_name hosts m)
unfolding hosts_by_name
AllFound-hosts_by_name [] m _ f = f
AllFound-hosts_by_name (host ∷ hosts) m (p, ps) f =
    AllFound-hosts_by_name hosts (insert host.meta.name host m) ps
      λ name found e. ground (arith, e, p, f name found, lookup-insert host.meta.name name host m)

abbrev Present : Map AnsibleHost → String → Type 0
Present m name = (host : AnsibleHost) × (lookup name m ≡ some host)

cons-Present :
    (key : String) (old : AnsibleHost) (m : Map AnsibleHost) (names : List String)
    → All (Present m) names
    → All (Present ((key, old) ∷ m)) names
unfolding lookup
cons-Present key old m [] _ = tt
cons-Present key old m (name ∷ names) ((host, found), rest) = (
  elim (Bool-cases (key == name)) [
    | inl same ↦ (old, ground (arith, same))
    | inr differ ↦ (host, ground (arith, differ, found))
  ],
  cons-Present key old m names rest,
)

keys-Present : (m : Map AnsibleHost) → All (Present m) (keys m)
unfolding lookup
keys-Present [] = tt
keys-Present ((name, host) ∷ m) =
    ((host, ground arith), cons-Present name host m (keys m) (keys-Present m))

every_privileged :
    (m : Map AnsibleHost) (names : List String)
    → AllFound m
    → All (Present m) names
    → every (has_privilege m) names ≡ true
every_privileged m [] f _ = refl
every_privileged m (name ∷ names) f ((host, found), rest) =
    ground (arith, found, f name host found, every_privileged m names f rest)

pub construct_inventory_content-NoPanic :
    (hosts : List AnsibleHost) (groups : Map AnsibleGroup)
    → All Privileged hosts
    → NoPanic (construct_inventory_content (hosts_by_name hosts []) groups)
unfolding construct_inventory_content lookup
construct_inventory_content-NoPanic hosts groups p =
    let m = hosts_by_name hosts [] in
    ground (
      arith,
      ending-inventory_content m groups,
      every_privileged m (keys m) (AllFound-hosts_by_name hosts [] p (λ _ _ e. ground arith))
          (keys-Present m),
    )
