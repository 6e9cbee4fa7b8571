-- ===== src/DeepCopy/Hosts.antt =====
-- The deep copies of `AnsibleHost`, its parts and its list.
use ansible_operator.Base.{Option}
use ansible_operator.Api.{AnsibleHostConnection, AnsibleHostPrivilege, AnsibleHostSsh}
use ansible_operator.DeepCopy.Structs.{Machinery, AnsibleHostSpec, Status, AnsibleHost, ItemList}
use ansible_operator.DeepCopy.Memory.{
  Copy, pure, ◌>>=◌, copy_slice, condition_array, deep_copy, deep_copy_object, copy_pointer,
  privilege_struct, host_array,
}
use ansible_operator.DeepCopy.Library.{Library}

module _ {M : Machinery} (L : Library M) where
  unfoldable pub copy_host_connection_into : AnsibleHostConnection → Copy M AnsibleHostConnection
  copy_host_connection_into x = pure x

  unfoldable pub copy_host_connection :
      Option AnsibleHostConnection → Copy M (Option AnsibleHostConnection)
  unfolding deep_copy
  copy_host_connection = deep_copy copy_host_connection_into

  unfoldable pub copy_host_privilege_into : AnsibleHostPrivilege → Copy M AnsibleHostPrivilege
  copy_host_privilege_into x = pure x

  unfoldable pub copy_host_privilege :
      Option AnsibleHostPrivilege → Copy M (Option AnsibleHostPrivilege)
  unfolding deep_copy
  copy_host_privilege = deep_copy copy_host_privilege_into

  unfoldable pub copy_host_ssh_into : AnsibleHostSsh → Copy M AnsibleHostSsh
  copy_host_ssh_into x = pure (record x {
    ssh_key_secret_ref = x.ssh_key_secret_ref;
    ssh_host_key_secret_ref = x.ssh_host_key_secret_ref;
  })

  unfoldable pub copy_host_ssh : Option AnsibleHostSsh → Copy M (Option AnsibleHostSsh)
  unfolding deep_copy
  copy_host_ssh = deep_copy copy_host_ssh_into

  unfoldable pub copy_host_spec_into : AnsibleHostSpec → Copy M AnsibleHostSpec
  unfolding copy_pointer
  copy_host_spec_into x = do
    privilege ← copy_pointer (privilege_struct M) x.privilege
    pure (record x { connection = x.connection; ssh = x.ssh; privilege = privilege })

  unfoldable pub copy_host_spec : Option AnsibleHostSpec → Copy M (Option AnsibleHostSpec)
  unfolding deep_copy
  copy_host_spec = deep_copy copy_host_spec_into

  unfoldable pub copy_host_status_into : Status → Copy M Status
  unfolding copy_slice
  copy_host_status_into x = do
    conditions ← copy_slice (condition_array M) L.copy_condition x.conditions
    pure (record x { conditions = conditions })

  unfoldable pub copy_host_status : Option Status → Copy M (Option Status)
  unfolding deep_copy
  copy_host_status = deep_copy copy_host_status_into

  unfoldable pub copy_host_into : (AnsibleHost M) → Copy M (AnsibleHost M)
  unfolding copy_host_spec_into copy_host_status_into
  copy_host_into x = do
    meta ← L.copy_object_meta x.meta
    spec ← copy_host_spec_into x.spec
    status ← copy_host_status_into x.status
    pure (record x { meta = meta; spec = spec; status = status })

  unfoldable pub copy_host : Option (AnsibleHost M) → Copy M (Option (AnsibleHost M))
  unfolding deep_copy
  copy_host = deep_copy copy_host_into

  unfoldable pub copy_host_object : Option (AnsibleHost M) → Copy M (Option (AnsibleHost M))
  unfolding deep_copy_object
  copy_host_object = deep_copy_object copy_host_into

  unfoldable pub copy_host_list_into : (ItemList M) → Copy M (ItemList M)
  unfolding copy_slice
  copy_host_list_into x = do
    meta ← L.copy_list_meta x.meta
    items ← copy_slice (host_array M) copy_host_into x.items
    pure (record x { meta = meta; items = items })

  unfoldable pub copy_host_list : Option (ItemList M) → Copy M (Option (ItemList M))
  unfolding deep_copy
  copy_host_list = deep_copy copy_host_list_into

  unfoldable pub copy_host_list_object : Option (ItemList M) → Copy M (Option (ItemList M))
  unfolding deep_copy_object
  copy_host_list_object = deep_copy_object copy_host_list_into
