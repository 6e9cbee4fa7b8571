-- ===== src/DeepCopy/Groups.antt =====
-- The deep copies of `AnsibleGroup`, its parts and its list.
use ansible_operator.Base.{Option}
use ansible_operator.DeepCopy.Structs.{Machinery, AnsibleGroupSpec, Status, AnsibleGroup, ItemList}
use ansible_operator.DeepCopy.Memory.{
  Copy, pure, ◌>>=◌, copy_slice, condition_array, deep_copy, deep_copy_object, reference_array,
  group_array,
}
use ansible_operator.DeepCopy.Library.{Library}

module _ {M : Machinery} (L : Library M) where
  unfoldable pub copy_group_spec_into : AnsibleGroupSpec → Copy M AnsibleGroupSpec
  unfolding copy_slice
  copy_group_spec_into x = do
    hosts ← copy_slice (reference_array M) pure x.hosts
    groups ← copy_slice (reference_array M) pure x.groups
    pure (record x { hosts = hosts; groups = groups })

  unfoldable pub copy_group_spec : Option AnsibleGroupSpec → Copy M (Option AnsibleGroupSpec)
  unfolding deep_copy
  copy_group_spec = deep_copy copy_group_spec_into

  unfoldable pub copy_group_status_into : Status → Copy M Status
  unfolding copy_slice
  copy_group_status_into x = do
    conditions ← copy_slice (condition_array M) L.copy_condition x.conditions
    pure (record x { conditions = conditions })

  unfoldable pub copy_group_status : Option Status → Copy M (Option Status)
  unfolding deep_copy
  copy_group_status = deep_copy copy_group_status_into

  unfoldable pub copy_group_into : (AnsibleGroup M) → Copy M (AnsibleGroup M)
  unfolding copy_group_spec_into copy_group_status_into
  copy_group_into x = do
    meta ← L.copy_object_meta x.meta
    spec ← copy_group_spec_into x.spec
    status ← copy_group_status_into x.status
    pure (record x { meta = meta; spec = spec; status = status })

  unfoldable pub copy_group : Option (AnsibleGroup M) → Copy M (Option (AnsibleGroup M))
  unfolding deep_copy
  copy_group = deep_copy copy_group_into

  unfoldable pub copy_group_object : Option (AnsibleGroup M) → Copy M (Option (AnsibleGroup M))
  unfolding deep_copy_object
  copy_group_object = deep_copy_object copy_group_into

  unfoldable pub copy_group_list_into : (ItemList M) → Copy M (ItemList M)
  unfolding copy_slice
  copy_group_list_into x = do
    meta ← L.copy_list_meta x.meta
    items ← copy_slice (group_array M) copy_group_into x.items
    pure (record x { meta = meta; items = items })

  unfoldable pub copy_group_list : Option (ItemList M) → Copy M (Option (ItemList M))
  unfolding deep_copy
  copy_group_list = deep_copy copy_group_list_into

  unfoldable pub copy_group_list_object : Option (ItemList M) → Copy M (Option (ItemList M))
  unfolding deep_copy_object
  copy_group_list_object = deep_copy_object copy_group_list_into
