-- ===== src/DeepCopy/Playbooks.antt =====
-- The deep copies of `AnsiblePlaybook`, its parts and its list.
use ansible_operator.Base.{Option}
use ansible_operator.Api.{AnsiblePlaybookRepo, AnsiblePlaybookGit, AnsiblePlaybookInline}
use ansible_operator.DeepCopy.Structs.{
  Machinery, AnsiblePlaybookSpec, Status, AnsiblePlaybook, ItemList,
}
use ansible_operator.DeepCopy.Memory.{
  Copy, pure, ◌>>=◌, copy_slice, condition_array, deep_copy, deep_copy_object, copy_pointer,
  inline_struct, git_struct, playbook_array,
}
use ansible_operator.DeepCopy.Library.{Library}

module _ {M : Machinery} (L : Library M) where
  unfoldable pub copy_playbook_git_into : AnsiblePlaybookGit → Copy M AnsiblePlaybookGit
  copy_playbook_git_into x = pure (record x { repo = x.repo })

  unfoldable pub copy_playbook_git : Option AnsiblePlaybookGit → Copy M (Option AnsiblePlaybookGit)
  unfolding deep_copy
  copy_playbook_git = deep_copy copy_playbook_git_into

  unfoldable pub copy_playbook_inline_into : AnsiblePlaybookInline → Copy M AnsiblePlaybookInline
  copy_playbook_inline_into x = pure x

  unfoldable pub copy_playbook_inline :
      Option AnsiblePlaybookInline → Copy M (Option AnsiblePlaybookInline)
  unfolding deep_copy
  copy_playbook_inline = deep_copy copy_playbook_inline_into

  unfoldable pub copy_playbook_repo_into : AnsiblePlaybookRepo → Copy M AnsiblePlaybookRepo
  copy_playbook_repo_into x = pure x

  unfoldable pub copy_playbook_repo :
      Option AnsiblePlaybookRepo → Copy M (Option AnsiblePlaybookRepo)
  unfolding deep_copy
  copy_playbook_repo = deep_copy copy_playbook_repo_into

  unfoldable pub copy_playbook_spec_into : AnsiblePlaybookSpec → Copy M AnsiblePlaybookSpec
  unfolding copy_pointer
  copy_playbook_spec_into x = do
    inline ← copy_pointer (inline_struct M) x.inline
    git ← copy_pointer (git_struct M) x.git
    pure (record x { inline = inline; git = git })

  unfoldable pub copy_playbook_spec :
      Option AnsiblePlaybookSpec → Copy M (Option AnsiblePlaybookSpec)
  unfolding deep_copy
  copy_playbook_spec = deep_copy copy_playbook_spec_into

  unfoldable pub copy_playbook_status_into : Status → Copy M Status
  unfolding copy_slice
  copy_playbook_status_into x = do
    conditions ← copy_slice (condition_array M) L.copy_condition x.conditions
    pure (record x { conditions = conditions })

  unfoldable pub copy_playbook_status : Option Status → Copy M (Option Status)
  unfolding deep_copy
  copy_playbook_status = deep_copy copy_playbook_status_into

  unfoldable pub copy_playbook_into : (AnsiblePlaybook M) → Copy M (AnsiblePlaybook M)
  unfolding copy_playbook_spec_into copy_playbook_status_into
  copy_playbook_into x = do
    meta ← L.copy_object_meta x.meta
    spec ← copy_playbook_spec_into x.spec
    status ← copy_playbook_status_into x.status
    pure (record x { meta = meta; spec = spec; status = status })

  unfoldable pub copy_playbook : Option (AnsiblePlaybook M) → Copy M (Option (AnsiblePlaybook M))
  unfolding deep_copy
  copy_playbook = deep_copy copy_playbook_into

  unfoldable pub copy_playbook_object :
      Option (AnsiblePlaybook M) → Copy M (Option (AnsiblePlaybook M))
  unfolding deep_copy_object
  copy_playbook_object = deep_copy_object copy_playbook_into

  unfoldable pub copy_playbook_list_into : (ItemList M) → Copy M (ItemList M)
  unfolding copy_slice
  copy_playbook_list_into x = do
    meta ← L.copy_list_meta x.meta
    items ← copy_slice (playbook_array M) copy_playbook_into x.items
    pure (record x { meta = meta; items = items })

  unfoldable pub copy_playbook_list : Option (ItemList M) → Copy M (Option (ItemList M))
  unfolding deep_copy
  copy_playbook_list = deep_copy copy_playbook_list_into

  unfoldable pub copy_playbook_list_object : Option (ItemList M) → Copy M (Option (ItemList M))
  unfolding deep_copy_object
  copy_playbook_list_object = deep_copy_object copy_playbook_list_into
