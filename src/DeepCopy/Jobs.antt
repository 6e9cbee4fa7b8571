-- ===== src/DeepCopy/Jobs.antt =====
-- The deep copies of `AnsibleReconcileJob`, its parts and its list.
use ansible_operator.Base.{Option}
use ansible_operator.Api.{AnsibleReconcileJobSpec}
use ansible_operator.DeepCopy.Structs.{Machinery, Status, AnsibleReconcileJob, ItemList}
use ansible_operator.DeepCopy.Memory.{
  Copy, pure, ◌>>=◌, copy_slice, condition_array, deep_copy, deep_copy_object, job_array,
}
use ansible_operator.DeepCopy.Library.{Library}

module _ {M : Machinery} (L : Library M) where
  unfoldable pub copy_job_spec_into : AnsibleReconcileJobSpec → Copy M AnsibleReconcileJobSpec
  copy_job_spec_into x = pure (record x { playbook_ref = x.playbook_ref })

  unfoldable pub copy_job_spec :
      Option AnsibleReconcileJobSpec → Copy M (Option AnsibleReconcileJobSpec)
  unfolding deep_copy
  copy_job_spec = deep_copy copy_job_spec_into

  unfoldable pub copy_job_status_into : Status → Copy M Status
  unfolding copy_slice
  copy_job_status_into x = do
    conditions ← copy_slice (condition_array M) L.copy_condition x.conditions
    pure (record x { conditions = conditions })

  unfoldable pub copy_job_status : Option Status → Copy M (Option Status)
  unfolding deep_copy
  copy_job_status = deep_copy copy_job_status_into

  unfoldable pub copy_job_into : (AnsibleReconcileJob M) → Copy M (AnsibleReconcileJob M)
  unfolding copy_job_status_into
  copy_job_into x = do
    meta ← L.copy_object_meta x.meta
    status ← copy_job_status_into x.status
    pure (record x { meta = meta; spec = x.spec; status = status })

  unfoldable pub copy_job : Option (AnsibleReconcileJob M) → Copy M (Option (AnsibleReconcileJob M))
  unfolding deep_copy
  copy_job = deep_copy copy_job_into

  unfoldable pub copy_job_object :
      Option (AnsibleReconcileJob M) → Copy M (Option (AnsibleReconcileJob M))
  unfolding deep_copy_object
  copy_job_object = deep_copy_object copy_job_into

  unfoldable pub copy_job_list_into : (ItemList M) → Copy M (ItemList M)
  unfolding copy_slice
  copy_job_list_into x = do
    meta ← L.copy_list_meta x.meta
    items ← copy_slice (job_array M) copy_job_into x.items
    pure (record x { meta = meta; items = items })

  unfoldable pub copy_job_list : Option (ItemList M) → Copy M (Option (ItemList M))
  unfolding deep_copy
  copy_job_list = deep_copy copy_job_list_into

  unfoldable pub copy_job_list_object : Option (ItemList M) → Copy M (Option (ItemList M))
  unfolding deep_copy_object
  copy_job_list_object = deep_copy_object copy_job_list_into
