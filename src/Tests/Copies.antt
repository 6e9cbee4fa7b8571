-- ===== src/Tests/Copies.antt =====
-- Deep copies in a memory where the metadata of an object has an array of its own, the labels.
use ansible_operator.Base.{ℕ, String, refl, true, Option, none, some, List, [], ◌∷◌}
use ansible_operator.Api.{Condition, condition_true}
use ansible_operator.DeepCopy.Structs.{
  Machinery, AnsibleGroup, AnsibleHost, AnsiblePlaybook, AnsibleReconcileJob, ItemList,
}
use ansible_operator.DeepCopy.Memory.{
  Memory, Kind, pure, copy_slice, block, references, conditions, privilege, inline, group_items,
  host_items, group_array, host_array, playbook_array, job_array,
}
use ansible_operator.DeepCopy.Library.{Library}
use ansible_operator.DeepCopy.Alike.{Plain, Slice, Deep-pure, Deep-slice}
use ansible_operator.DeepCopy.Laws.{LibraryLaws, AlikeList}
use ansible_operator.DeepCopy.Groups.{copy_group_object, copy_group_list_object}
use ansible_operator.DeepCopy.Hosts.{copy_host_object, copy_host_list_object}
use ansible_operator.DeepCopy.Playbooks.{copy_playbook_object, copy_playbook_list_object}
use ansible_operator.DeepCopy.Jobs.{copy_job_object, copy_job_list_object}
use ansible_operator.DeepCopy.Laws.Groups.{AlikeGroup}
use ansible_operator.DeepCopy.Laws.Hosts.{AlikeHost}
use ansible_operator.DeepCopy.Laws.Playbooks.{AlikePlaybook}
use ansible_operator.DeepCopy.Laws.Jobs.{AlikeReconcileJob}
use ansible_operator.DeepCopy.Independence.{
  IsReadable, Independent, copy_object-Independent, copy_list_object-Independent,
}
use ansible_operator.Tests.Data.{web, nightly}

abbrev machinery : Machinery
machinery = record {
  TypeMeta = String;
  ObjectMeta = Option ℕ;
  ListMeta = String;
  Condition = Condition;
  Block = List String;
}

abbrev label_array : Kind machinery (List String)
label_array = record { wrap = block; unwrap = λ c. elim c [ block xs ↦ some xs | _ ↦ none ] }

abbrev library : Library machinery
library = record {
  copy_object_meta = copy_slice label_array pure;
  copy_list_meta = pure;
  copy_condition = pure;
}

library-LibraryLaws : LibraryLaws library
library-LibraryLaws = record {
  AlikeMeta = Slice machinery label_array (Plain machinery String);
  AlikeListMeta = Plain machinery String;
  AlikeCondition = Plain machinery Condition;
  object_meta = Deep-slice machinery label_array _ pure (Deep-pure machinery) (λ xs. refl);
  list_meta = Deep-pure machinery;
  condition = Deep-pure machinery;
}

abbrev group_in_memory : AnsibleGroup machinery
group_in_memory = record {
  type_meta = "AnsibleGroup";
  meta = some 0;
  spec = record { ansible_name = "frontends"; hosts = some 1; groups = none; group_vars = "b: 2" };
  status = record { conditions = some 2 };
}

abbrev host_in_memory : AnsibleHost machinery
host_in_memory = record {
  type_meta = "AnsibleHost";
  meta = some 0;
  spec = record {
    ansible_name = "web1";
    connection = web.spec.connection;
    ssh = web.spec.ssh;
    privilege = some 3;
    host_vars = "a: 1";
  };
  status = record { conditions = none };
}

abbrev playbook_in_memory : AnsiblePlaybook machinery
playbook_in_memory = record {
  type_meta = "AnsiblePlaybook";
  meta = none;
  spec = record { inline = some 4; git = none };
  status = record { conditions = some 2 };
}

abbrev job_in_memory : AnsibleReconcileJob machinery
job_in_memory = record {
  type_meta = "AnsibleReconcileJob";
  meta = some 0;
  spec = nightly.spec;
  status = record { conditions = some 2 };
}

abbrev before : Memory machinery
before =
    block ("tier" ∷ [])
    ∷ references (record { name = "web" } ∷ [])
    ∷ conditions
        (record { type = "Ready"; status = condition_true; reason = "Ready"; message = "" } ∷ [])
    ∷ privilege (record { become = true })
    ∷ inline (record { requirements = ""; playbook = "- hosts: all" })
    ∷ group_items (group_in_memory ∷ group_in_memory ∷ [])
    ∷ host_items (host_in_memory ∷ [])
    ∷ []

abbrev list_at : Option ℕ → Option (ItemList machinery)
list_at items = some (record { type_meta = "List"; meta = "1"; items = items })

group-IsReadable : IsReadable (AlikeGroup library library-LibraryLaws) before (some group_in_memory)
unfolding library-LibraryLaws
group-IsReadable = (
  refl,
  ("tier" ∷ [], "tier" ∷ [], refl, refl, (refl, tt)),
  (refl, refl, (_, _, refl, refl, (refl, tt)), tt),
  (_, _, refl, refl, (refl, tt)),
)

host-IsReadable : IsReadable (AlikeHost library library-LibraryLaws) before (some host_in_memory)
unfolding library-LibraryLaws
host-IsReadable = (
  refl,
  ("tier" ∷ [], "tier" ∷ [], refl, refl, (refl, tt)),
  (refl, refl, refl, refl, (_, refl, refl)),
  tt,
)

playbook-IsReadable :
    IsReadable (AlikePlaybook library library-LibraryLaws) before (some playbook_in_memory)
unfolding library-LibraryLaws
playbook-IsReadable = (refl, tt, ((_, refl, refl), tt), (_, _, refl, refl, (refl, tt)))

job-IsReadable :
    IsReadable (AlikeReconcileJob library library-LibraryLaws) before (some job_in_memory)
unfolding library-LibraryLaws
job-IsReadable =
    (refl, ("tier" ∷ [], "tier" ∷ [], refl, refl, (refl, tt)), refl, (_, _, refl, refl, (refl, tt)))

copy_object-Independent_example :
    Independent
      (AlikeGroup library library-LibraryLaws)
      before
      (some group_in_memory)
      (copy_group_object library (some group_in_memory))
    × Independent
        (AlikeHost library library-LibraryLaws)
        before
        (some host_in_memory)
        (copy_host_object library (some host_in_memory))
    × Independent
        (AlikePlaybook library library-LibraryLaws)
        before
        (some playbook_in_memory)
        (copy_playbook_object library (some playbook_in_memory))
    × Independent
        (AlikeReconcileJob library library-LibraryLaws)
        before
        (some job_in_memory)
        (copy_job_object library (some job_in_memory))
copy_object-Independent_example =
    copy_object-Independent library library-LibraryLaws before (some group_in_memory)
      (some host_in_memory) (some playbook_in_memory) (some job_in_memory) group-IsReadable
      host-IsReadable playbook-IsReadable job-IsReadable

groups-IsReadable :
    IsReadable
      (AlikeList library library-LibraryLaws
        (group_array machinery)
        (AlikeGroup library library-LibraryLaws))
      before
      (list_at (some 5))
unfolding library-LibraryLaws
groups-IsReadable = (refl, refl, (_, _, refl, refl, (group-IsReadable, (group-IsReadable, tt))))

hosts-IsReadable :
    IsReadable
      (AlikeList library library-LibraryLaws
        (host_array machinery)
        (AlikeHost library library-LibraryLaws))
      before
      (list_at (some 6))
unfolding library-LibraryLaws
hosts-IsReadable = (refl, refl, (_, _, refl, refl, (host-IsReadable, tt)))

playbooks-IsReadable :
    IsReadable
      (AlikeList library library-LibraryLaws
        (playbook_array machinery)
        (AlikePlaybook library library-LibraryLaws))
      before
      (list_at none)
unfolding library-LibraryLaws
playbooks-IsReadable = (refl, refl, tt)

jobs-IsReadable :
    IsReadable
      (AlikeList library library-LibraryLaws
        (job_array machinery)
        (AlikeReconcileJob library library-LibraryLaws))
      before
      (list_at none)
unfolding library-LibraryLaws
jobs-IsReadable = (refl, refl, tt)

copy_list_object-Independent_example :
    Independent
      (AlikeList library library-LibraryLaws
        (group_array machinery)
        (AlikeGroup library library-LibraryLaws))
      before
      (list_at (some 5))
      (copy_group_list_object library (list_at (some 5)))
    × Independent
        (AlikeList library library-LibraryLaws
          (host_array machinery)
          (AlikeHost library library-LibraryLaws))
        before
        (list_at (some 6))
        (copy_host_list_object library (list_at (some 6)))
    × Independent
        (AlikeList library library-LibraryLaws
          (playbook_array machinery)
          (AlikePlaybook library library-LibraryLaws))
        before
        (list_at none)
        (copy_playbook_list_object library (list_at none))
    × Independent
        (AlikeList library library-LibraryLaws
          (job_array machinery)
          (AlikeReconcileJob library library-LibraryLaws))
        before
        (list_at none)
        (copy_job_list_object library (list_at none))
copy_list_object-Independent_example =
    copy_list_object-Independent library library-LibraryLaws before (list_at (some 5))
      (list_at (some 6)) (list_at none) (list_at none) groups-IsReadable hosts-IsReadable
      playbooks-IsReadable jobs-IsReadable
