-- ===== src/ReconcileJob/Inventory/Resolution.antt =====
-- When the content of the inventory can be computed.
use ansible_operator.Base.{
  String, ◌≡◌, refl, Bool, true, false, ◌&&◌, none, some, List, [], ◌∷◌, arith, Result, ok, err,
  panic, if◌then◌else◌, inl, inr, Option-cases,
}
use ansible_operator.Base.Maps.{Map, keys, lookup}
use ansible_operator.Base.Sorting.{sorted, insert_sorted}
use ansible_operator.Api.{LocalObjectReference, AnsibleHost, AnsibleGroup}
use ansible_operator.ReconcileJob.Inventory.Content.{
  map_ansible_host, map_member_group, map_member_host, map_each, host_entry, group_content,
  group_entry, inventory_content, subgroup_name, host_name,
}

-- How a function ends.
pub data Ending : Type 0 where
  returns errs panics : Ending

abbrev pub ending {ℓ} : {A : Type ℓ} → Result A → Ending
ending (ok a) = returns
ending (err e) = errs
ending panic = panics

module _ {A : Type 0} where
  abbrev pub every : (A → Bool) → List A → Bool
  every p [] = true
  every p (x ∷ xs) = p x && every p xs

every-insert_sorted :
    (p : String → Bool) (a : String) (l : List String)
    → every p (insert_sorted a l) ≡ (p a && every p l)
unfolding insert_sorted
every-insert_sorted p a [] = refl
every-insert_sorted p a (b ∷ l) = ground (arith, every-insert_sorted p a l)

every-sorted : (p : String → Bool) (l : List String) → every p (sorted l) ≡ every p l
unfolding sorted
every-sorted p [] = refl
every-sorted p (a ∷ l) = ground (arith, every-insert_sorted p a (sorted l), every-sorted p l)

-- A loop ends as its first round that does not return.
ending-map_each :
    {A B : Type 0} (f : A → Result B) (p : A → Bool) (bad : Ending)
    → ((x : A) → ending (f x) ≡ (if p x then returns else bad))
    → (xs : List A) → ending (map_each f xs) ≡ (if every p xs then returns else bad)
unfolding map_each
ending-map_each f p bad h [] = refl
ending-map_each f p bad h (x ∷ xs) = ground (arith, h x, ending-map_each f p bad h xs)

module _ {V : Type 0} where
  abbrev pub is_present : Map V → LocalObjectReference → Bool
  is_present m ref = elim (lookup ref.name m) [ none ↦ false | some v ↦ true ]

module _ (hosts : Map AnsibleHost) where
  -- The map has a host of this name, and the host says how to gain privileges.
  abbrev pub has_privilege : String → Bool
  has_privilege name = elim (lookup name hosts) [
    | none ↦ false
    | some host ↦ elim host.spec.privilege [ none ↦ false | some privilege ↦ true ]
  ]

  ending-host_entry :
      (name : String)
      → ending (host_entry hosts name) ≡ (if has_privilege name then returns else panics)
  unfolding host_entry map_ansible_host
  ending-host_entry name = ground arith

module _ (hosts : Map AnsibleHost) (groups : Map AnsibleGroup) where
  -- All references of the group lead to objects of the maps.
  abbrev pub resolves : AnsibleGroup → Bool
  resolves group =
      every (is_present groups) group.spec.groups && every (is_present hosts) group.spec.hosts

  abbrev pub entry_resolves : String → Bool
  entry_resolves name = elim (lookup name groups) [ none ↦ true | some group ↦ resolves group ]

  ending-group_content :
      (group : AnsibleGroup)
      → ending (group_content hosts groups group) ≡ (if resolves group then returns else errs)
  unfolding group_content map_member_group map_member_host
  ending-group_content group = ground (
    arith,
    ending-map_each (subgroup_name hosts groups group) (is_present groups) errs
        (λ ref. ground arith) group.spec.groups,
    ending-map_each (host_name hosts groups group) (is_present hosts) errs (λ ref. ground arith)
        group.spec.hosts,
  )

  ending-group_entry :
      (name : String)
      → ending (group_entry hosts groups name) ≡ (if entry_resolves name then returns else errs)
  unfolding group_entry
  ending-group_entry name = elim (Option-cases (lookup name groups)) [
    | inl missing ↦ ground arith
    | inr (group, found) ↦ ground (arith, found, ending-group_content group)
  ]

  -- The content of the inventory is computed exactly if every host has its optional `privilege` and
  -- every reference of every group leads to a host or a group of the namespace. A host without
  -- `privilege` makes the function panic; otherwise a reference that leads nowhere makes it fail.
  pub ending-inventory_content : ending (inventory_content hosts groups) ≡ (
      if every (has_privilege hosts) (keys hosts)
      then (if every entry_resolves (keys groups) then returns else errs)
      else panics)
  unfolding inventory_content
  ending-inventory_content = ground (
    arith,
    every-sorted (has_privilege hosts) (keys hosts),
    every-sorted entry_resolves (keys groups),
    ending-map_each (host_entry hosts) (has_privilege hosts) panics (ending-host_entry hosts)
        (sorted (keys hosts)),
    ending-map_each (group_entry hosts groups) entry_resolves errs ending-group_entry
        (sorted (keys groups)),
  )
