-- ===== src/DeepCopy/Independence.antt =====
-- The deep copies of all resources and lists share nothing with the originals.
use ansible_operator.Base.{Option}
use ansible_operator.DeepCopy.Structs.{
  Machinery, AnsibleGroup, AnsibleHost, AnsiblePlaybook, AnsibleReconcileJob, ItemList,
}
use ansible_operator.DeepCopy.Memory.{
  Memory, Copy, deep_copy_object, group_array, host_array, playbook_array, job_array,
}
use ansible_operator.DeepCopy.Library.{Library}
use ansible_operator.DeepCopy.Copied.{Copied}
use ansible_operator.DeepCopy.Alike.{Relation, Nullable, Deep, Deep-deep_copy_object}
use ansible_operator.DeepCopy.Laws.{LibraryLaws, AlikeList}
use ansible_operator.DeepCopy.Groups.{copy_group_object, copy_group_list_object}
use ansible_operator.DeepCopy.Laws.Groups.{
  AlikeGroup, copy_group_into-Deep, copy_group_list_into-Deep,
}
use ansible_operator.DeepCopy.Hosts.{copy_host_object, copy_host_list_object}
use ansible_operator.DeepCopy.Laws.Hosts.{AlikeHost, copy_host_into-Deep, copy_host_list_into-Deep}
use ansible_operator.DeepCopy.Playbooks.{copy_playbook_object, copy_playbook_list_object}
use ansible_operator.DeepCopy.Laws.Playbooks.{
  AlikePlaybook, copy_playbook_into-Deep, copy_playbook_list_into-Deep,
}
use ansible_operator.DeepCopy.Jobs.{copy_job_object, copy_job_list_object}
use ansible_operator.DeepCopy.Laws.Jobs.{
  AlikeReconcileJob, copy_job_into-Deep, copy_job_list_into-Deep,
}

module _ {M : Machinery} where
  -- The copy of `x` corresponds to `x` as it is in `h`, in every later memory that has the cells added by
  -- the copying, whatever has become of the others.
  abbrev pub Independent :
      {E : Type 0} → Relation M E → Memory M → Option E → Copy M (Option E) → Type 0
  Independent R h x m = Copied h m (λ later y. Nullable M R h x later y)

  -- `x` can be read in `h`: its addresses lead to what they should lead to.
  abbrev pub IsReadable : {E : Type 0} → Relation M E → Memory M → Option E → Type 0
  IsReadable R h x = Nullable M R h x h x

module _ {M : Machinery} (L : Library M) (laws : LibraryLaws L) (h : Memory M) where
  independent :
      {E : Type 0} (R : Relation M E) (f : E → Copy M E) (x : Option E)
      → Deep M R f
      → IsReadable R h x
      → Independent R h x (deep_copy_object f x)
  independent R f x d readable = (Deep-deep_copy_object M R f d).copies h h x x readable

  -- If the copies of apimachinery are deep: `DeepCopyObject`, and with it `DeepCopy` and `DeepCopyInto`, of a
  -- group, a host, a playbook and a reconcile job that can be read ends, adds to the memory and changes
  -- nothing that is there, and returns nil for nil, and otherwise a resource equal to the original
  -- through all slices and pointers, which stays so whatever is then done to the memory of the
  -- original.
  pub copy_object-Independent :
      (group : Option (AnsibleGroup M)) (host : Option (AnsibleHost M))
      (playbook : Option (AnsiblePlaybook M)) (job : Option (AnsibleReconcileJob M))
      → IsReadable (AlikeGroup L laws) h group
      → IsReadable (AlikeHost L laws) h host
      → IsReadable (AlikePlaybook L laws) h playbook
      → IsReadable (AlikeReconcileJob L laws) h job
      → Independent (AlikeGroup L laws) h group (copy_group_object L group)
        × Independent (AlikeHost L laws) h host (copy_host_object L host)
        × Independent (AlikePlaybook L laws) h playbook (copy_playbook_object L playbook)
        × Independent (AlikeReconcileJob L laws) h job (copy_job_object L job)
  unfolding copy_group_object copy_host_object copy_playbook_object copy_job_object
  copy_object-Independent group host playbook job r0 r1 r2 r3 = (
    independent (AlikeGroup L laws) _ group (copy_group_into-Deep L laws) r0,
    independent (AlikeHost L laws) _ host (copy_host_into-Deep L laws) r1,
    independent (AlikePlaybook L laws) _ playbook (copy_playbook_into-Deep L laws) r2,
    independent (AlikeReconcileJob L laws) _ job (copy_job_into-Deep L laws) r3,
  )

  -- If the copies of apimachinery are deep, the same holds of the lists: `DeepCopyObject` of a list of
  -- groups, hosts, playbooks or reconcile jobs returns a list equal to the original item by item, and
  -- through all that the items lead to, which stays so whatever is then done to the memory of
  -- the original.
  pub copy_list_object-Independent :
      (groups : Option (ItemList M)) (hosts : Option (ItemList M)) (playbooks : Option (ItemList M))
      (jobs : Option (ItemList M))
      → IsReadable (AlikeList L laws (group_array M) (AlikeGroup L laws)) h groups
      → IsReadable (AlikeList L laws (host_array M) (AlikeHost L laws)) h hosts
      → IsReadable (AlikeList L laws (playbook_array M) (AlikePlaybook L laws)) h playbooks
      → IsReadable (AlikeList L laws (job_array M) (AlikeReconcileJob L laws)) h jobs
      → Independent
          (AlikeList L laws (group_array M) (AlikeGroup L laws))
          h
          groups
          (copy_group_list_object L groups)
        × Independent
            (AlikeList L laws (host_array M) (AlikeHost L laws))
            h
            hosts
            (copy_host_list_object L hosts)
        × Independent
            (AlikeList L laws (playbook_array M) (AlikePlaybook L laws))
            h
            playbooks
            (copy_playbook_list_object L playbooks)
        × Independent
            (AlikeList L laws (job_array M) (AlikeReconcileJob L laws))
            h
            jobs
            (copy_job_list_object L jobs)
  unfolding copy_group_list_object copy_host_list_object copy_playbook_list_object
      copy_job_list_object
  copy_list_object-Independent groups hosts playbooks jobs r0 r1 r2 r3 = (
    independent (AlikeList L laws (group_array M) (AlikeGroup L laws)) _ groups
        (copy_group_list_into-Deep L laws) r0,
    independent (AlikeList L laws (host_array M) (AlikeHost L laws)) _ hosts
        (copy_host_list_into-Deep L laws) r1,
    independent (AlikeList L laws (playbook_array M) (AlikePlaybook L laws)) _ playbooks
        (copy_playbook_list_into-Deep L laws) r2,
    independent (AlikeList L laws (job_array M) (AlikeReconcileJob L laws)) _ jobs
        (copy_job_list_into-Deep L laws) r3,
  )
