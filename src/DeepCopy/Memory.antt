-- ===== src/DeepCopy/Memory.antt =====
-- Go's memory, as far as the deep copies see it: cells at addresses, which are only ever added here,
-- and actions that read and add them.
use Prim.Native.Nat.{zero, suc}
use ansible_operator.Base.{ℕ, Option, none, some, List, [], ◌∷◌, ◌++◌, length}
use ansible_operator.Api.{
  LocalObjectReference, AnsibleHostPrivilege, AnsiblePlaybookInline, AnsiblePlaybookGit,
}
use ansible_operator.DeepCopy.Structs.{
  Machinery, AnsibleGroup, AnsibleHost, AnsiblePlaybook, AnsibleReconcileJob,
}

module _ {ℓ} {A : Type ℓ} where
  abbrev pub get_elem? : List A → ℕ → Option A
  get_elem? [] n = none
  get_elem? (x ∷ xs) zero = some x
  get_elem? (x ∷ xs) (suc n) = get_elem? xs n

module _ (M : Machinery) where
  -- What an address leads to: the array behind a slice, or the struct behind a pointer.
  pub data Cell : Type 0 where
    -- the machinery's own
    block : M.Block → Cell
    references : List LocalObjectReference → Cell
    conditions : List M.Condition → Cell
    privilege : AnsibleHostPrivilege → Cell
    inline : AnsiblePlaybookInline → Cell
    git : AnsiblePlaybookGit → Cell
    group_items : List (AnsibleGroup M) → Cell
    host_items : List (AnsibleHost M) → Cell
    playbook_items : List (AnsiblePlaybook M) → Cell
    job_items : List (AnsibleReconcileJob M) → Cell

  abbrev pub Memory : Type 0
  Memory = List Cell

  -- the cells that hold an `E`
  pub record Kind (E : Type 0) : Type 0 where
    pub wrap : E → Cell
    pub unwrap : Cell → Option E

  -- An action on the memory; `none` where an address leads nowhere or to something else.
  abbrev pub Copy : Type 0 → Type 0
  Copy A = Memory → Option (A × Memory)

module _ {M : Machinery} where
  abbrev pub pure : {A : Type 0} → A → Copy M A
  pure a h = some (a, h)

  infixl 5 ◌>>=◌
  abbrev pub ◌>>=◌ : {A B : Type 0} → Copy M A → (A → Copy M B) → Copy M B
  ◌>>=◌ m f h = elim (m h) [ none ↦ none | some (a, h') ↦ f a h' ]

  -- what is at an address
  abbrev pub at : {E : Type 0} → Kind M E → Memory M → ℕ → Option E
  at kind h a = elim (get_elem? h a) [ none ↦ none | some c ↦ kind.unwrap c ]

  unfoldable pub load : {E : Type 0} → Kind M E → ℕ → Copy M E
  load kind a h = elim (at kind h a) [ none ↦ none | some x ↦ some (x, h) ]

  -- `new` and `make`, with what is then put there
  unfoldable pub alloc : {E : Type 0} → Kind M E → E → Copy M ℕ
  alloc kind x h = some (length h, h ++ (kind.wrap x ∷ []))

  -- `for i := range *in { (*in)[i].DeepCopyInto(&(*out)[i]) }`
  unfoldable pub copy_each : {E : Type 0} → (E → Copy M E) → List E → Copy M (List E)
  copy_each f [] = pure []
  copy_each f (x ∷ xs) = do y ← f x; ys ← copy_each f xs; pure (y ∷ ys)

  -- `if in.X != nil { … }` for a slice, with `make` and the loop. `copy` is the loop with `pure`.
  unfoldable pub copy_slice :
      {E : Type 0} → Kind M (List E) → (E → Copy M E) → Option ℕ → Copy M (Option ℕ)
  unfolding copy_each load alloc
  copy_slice kind f none = pure none
  copy_slice kind f (some a) = do
    xs ← load kind a
    ys ← copy_each f xs
    b ← alloc kind ys
    pure (some b)

  -- `if in.X != nil { … }` for a pointer, with `new` and `**out = **in`
  unfoldable pub copy_pointer : {E : Type 0} → Kind M E → Option ℕ → Copy M (Option ℕ)
  unfolding load alloc
  copy_pointer kind none = pure none
  copy_pointer kind (some a) = do x ← load kind a; b ← alloc kind x; pure (some b)

  module _ {E : Type 0} (copy_into : E → Copy M E) where
    -- The body of every `DeepCopy`. The struct behind the pointer that it returns is nobody else's.
    unfoldable pub deep_copy : Option E → Copy M (Option E)
    deep_copy none = pure none
    deep_copy (some x) = do y ← copy_into x; pure (some y)

    -- The body of every `DeepCopyObject`.
    unfoldable pub deep_copy_object : Option E → Copy M (Option E)
    unfolding deep_copy
    deep_copy_object x = do c ← deep_copy x; elim c [ none ↦ pure none | some y ↦ pure (some y) ]

-- The kinds of cells that the resources lead to.
module _ (M : Machinery) where
  abbrev pub reference_array : Kind M (List LocalObjectReference)
  reference_array = record {
    wrap = references;
    unwrap = λ c. elim c [ references x ↦ some x | _ ↦ none ];
  }

  abbrev pub condition_array : Kind M (List M.Condition)
  condition_array = record {
    wrap = conditions;
    unwrap = λ c. elim c [ conditions x ↦ some x | _ ↦ none ];
  }

  abbrev pub privilege_struct : Kind M AnsibleHostPrivilege
  privilege_struct = record {
    wrap = privilege;
    unwrap = λ c. elim c [ privilege x ↦ some x | _ ↦ none ];
  }

  abbrev pub inline_struct : Kind M AnsiblePlaybookInline
  inline_struct = record { wrap = inline; unwrap = λ c. elim c [ inline x ↦ some x | _ ↦ none ] }

  abbrev pub git_struct : Kind M AnsiblePlaybookGit
  git_struct = record { wrap = git; unwrap = λ c. elim c [ git x ↦ some x | _ ↦ none ] }

  abbrev pub group_array : Kind M (List (AnsibleGroup M))
  group_array = record {
    wrap = group_items;
    unwrap = λ c. elim c [ group_items x ↦ some x | _ ↦ none ];
  }

  abbrev pub host_array : Kind M (List (AnsibleHost M))
  host_array = record {
    wrap = host_items;
    unwrap = λ c. elim c [ host_items x ↦ some x | _ ↦ none ];
  }

  abbrev pub playbook_array : Kind M (List (AnsiblePlaybook M))
  playbook_array = record {
    wrap = playbook_items;
    unwrap = λ c. elim c [ playbook_items x ↦ some x | _ ↦ none ];
  }

  abbrev pub job_array : Kind M (List (AnsibleReconcileJob M))
  job_array = record { wrap = job_items; unwrap = λ c. elim c [ job_items x ↦ some x | _ ↦ none ] }
