-- ===== src/DeepCopy/Laws.antt =====
-- The generated deep copies make values that correspond to the originals.
pub mod Groups
pub mod Hosts
pub mod Playbooks
pub mod Jobs
use ansible_operator.Base.{ℕ, ◌≡◌, refl, Option, some, List}
use ansible_operator.Api.{LocalObjectReference}
use ansible_operator.DeepCopy.Structs.{
  Machinery, AnsibleGroupSpec, AnsibleHostSpec, AnsiblePlaybookSpec, Status, AnsibleGroup,
  AnsibleHost, AnsiblePlaybook, AnsibleReconcileJob, ItemList,
}
use ansible_operator.DeepCopy.Memory.{
  Memory, pure, ◌>>=◌, copy_slice, copy_pointer, reference_array, condition_array, privilege_struct,
  inline_struct, git_struct, group_array, host_array, playbook_array, job_array, Kind, Copy,
}
use ansible_operator.DeepCopy.Library.{Library}
use ansible_operator.DeepCopy.Copied.{Grows, Copied, Copied-pure, Copied-bind}
use ansible_operator.DeepCopy.Alike.{
  Relation, Plain, Slice, Pointer, Nullable, Deep, Deep-pure, Deep-slice, Deep-pointer,
}
use ansible_operator.DeepCopy.Groups.{
  copy_group_spec_into, copy_group_status_into, copy_group_into, copy_group_list_into,
}

-- What is relied on of apimachinery: its copies are deep, for some notion of equality of its structs.
pub record LibraryLaws {M : Machinery} (L : Library M) : Type 1 where
  pub AlikeMeta : Relation M M.ObjectMeta
  pub AlikeListMeta : Relation M M.ListMeta
  pub AlikeCondition : Relation M M.Condition
  pub object_meta : Deep M AlikeMeta L.copy_object_meta
  pub list_meta : Deep M AlikeListMeta L.copy_list_meta
  pub condition : Deep M AlikeCondition L.copy_condition

module _ {M : Machinery} (L : Library M) (laws : LibraryLaws L) where
  -- the same references, or nil
  abbrev pub AlikeReferences : Relation M (Option ℕ)
  AlikeReferences = Slice M (reference_array M) (Plain M LocalObjectReference)

  abbrev pub AlikeStatus : Relation M Status
  AlikeStatus h x i y =
      Slice M (condition_array M) laws.AlikeCondition h x.conditions i y.conditions

  pub references-Deep : Deep M AlikeReferences (copy_slice (reference_array M) pure)
  references-Deep = Deep-slice M (reference_array M) _ pure (Deep-pure M) (λ xs. refl)

  conditions-Deep :
      Deep M
        (Slice M (condition_array M) laws.AlikeCondition)
        (copy_slice (condition_array M) L.copy_condition)
  conditions-Deep = Deep-slice M (condition_array M) _ L.copy_condition laws.condition (λ xs. refl)

  -- The body that the copies of the four status types share.
  pub Deep-status :
      (f : Status → Copy M Status)
      → ((x : Status)
          → f x ≡ (do
            conditions ← copy_slice (condition_array M) L.copy_condition x.conditions
            pure (record x { conditions = conditions })))
      → Deep M AlikeStatus f
  Deep-status f body = record {
    stable = λ h i j x y g p. conditions-Deep.stable h i j x.conditions y.conditions g p;
    copies = λ h i x y p. rw (body y) (
        Copied-bind i (copy_slice (condition_array M) L.copy_condition y.conditions) _
          (conditions-Deep.copies h i x.conditions y.conditions p)
          λ cs j g _. Copied-pure j (record y { conditions = cs }) (λ later p'. p'));
  }

  module _ {E : Type 0} (array : Kind M (List E)) (R : Relation M E) where
    abbrev pub AlikeList : Relation M (ItemList M)
    AlikeList h x i y =
        (y.type_meta ≡ x.type_meta)
        × laws.AlikeListMeta h x.meta i y.meta
        × Slice M array R h x.items i y.items

    -- The body that the copies of the four lists share.
    pub Deep-list :
        (item : E → Copy M E) (f : ItemList M → Copy M (ItemList M))
        → ((xs : List E) → array.unwrap (array.wrap xs) ≡ some xs)
        → Deep M R item
        → ((x : ItemList M)
            → f x ≡ (do
              meta ← L.copy_list_meta x.meta
              items ← copy_slice array item x.items
              pure (record x { meta = meta; items = items })))
        → Deep M AlikeList f
    Deep-list item f back d body =
        let items = Deep-slice M array R item d back in
        record {
          stable = λ h i j x y g (t, m, p). (
            t,
            laws.list_meta.stable h i j x.meta y.meta g m,
            items.stable h i j x.items y.items g p,
          );
          copies = λ h i x y (t, m, p). rw (body y) (
              Copied-bind i (L.copy_list_meta y.meta) _ (laws.list_meta.copies h i x.meta y.meta m)
                λ meta j g _.
                  Copied-bind j (copy_slice array item y.items) _
                    (items.copies h j x.items y.items (items.stable h i j x.items y.items g p))
                    λ zs k g' _.
                      Copied-pure k (record y { meta = meta; items = zs })
                        (λ later p' m'. (t, m', p')));
        }
