-- ===== src/DeepCopy/Laws/Playbooks.antt =====
-- The copies of `AnsiblePlaybook`, its parts and its list are deep.
use ansible_operator.Base.{◌≡◌, refl}
use ansible_operator.DeepCopy.Structs.{Machinery, AnsiblePlaybook, AnsiblePlaybookSpec}
use ansible_operator.DeepCopy.Memory.{copy_pointer, inline_struct, git_struct, playbook_array}
use ansible_operator.DeepCopy.Library.{Library}
use ansible_operator.DeepCopy.Copied.{Copied-pure, Copied-bind}
use ansible_operator.DeepCopy.Alike.{Relation, Pointer, Deep, Deep-pointer}
use ansible_operator.DeepCopy.Laws.{LibraryLaws, AlikeStatus, Deep-status, AlikeList, Deep-list}
use ansible_operator.DeepCopy.Playbooks.{
  copy_playbook_status_into, copy_playbook_into, copy_playbook_list_into, copy_playbook_spec_into,
}

module _ {M : Machinery} (L : Library M) (laws : LibraryLaws L) where
  abbrev pub AlikePlaybookSpec : Relation M AnsiblePlaybookSpec
  AlikePlaybookSpec h x i y =
      Pointer M (inline_struct M) h x.inline i y.inline × Pointer M (git_struct M) h x.git i y.git

  inlines-Deep : Deep M (Pointer M (inline_struct M)) (copy_pointer (inline_struct M))
  inlines-Deep = Deep-pointer M (inline_struct M) (λ x. refl)

  gits-Deep : Deep M (Pointer M (git_struct M)) (copy_pointer (git_struct M))
  gits-Deep = Deep-pointer M (git_struct M) (λ x. refl)

  copy_playbook_spec_into-Deep : Deep M AlikePlaybookSpec (copy_playbook_spec_into L)
  unfolding copy_playbook_spec_into
  copy_playbook_spec_into-Deep = record {
    stable = λ h i j x y g (q0, q1).
        (inlines-Deep.stable h i j x.inline y.inline g q0, gits-Deep.stable h i j x.git y.git g q1);
    copies = λ h i x y (q0, q1).
        Copied-bind i (copy_pointer (inline_struct M) y.inline) _
          (inlines-Deep.copies h i x.inline y.inline q0)
          λ inline' j g _.
            Copied-bind j (copy_pointer (git_struct M) y.git) _
              (gits-Deep.copies h j x.git y.git (gits-Deep.stable h i j x.git y.git g q1))
              λ git' k g1 _.
                Copied-pure k (record y { inline = inline'; git = git' }) (λ later r1 r0. (r0, r1));
  }

  copy_playbook_status_into-Deep : Deep M (AlikeStatus L laws) (copy_playbook_status_into L)
  unfolding copy_playbook_status_into
  copy_playbook_status_into-Deep = Deep-status L laws (copy_playbook_status_into L) (λ x. refl)

  abbrev pub AlikePlaybook : Relation M (AnsiblePlaybook M)
  AlikePlaybook h x i y =
      (y.type_meta ≡ x.type_meta)
      × laws.AlikeMeta h x.meta i y.meta
      × (AlikePlaybookSpec h x.spec i y.spec)
      × AlikeStatus L laws h x.status i y.status

  pub copy_playbook_into-Deep : Deep M AlikePlaybook (copy_playbook_into L)
  unfolding copy_playbook_into
  copy_playbook_into-Deep = record {
    stable = λ h i j x y g (t, m, s, c). (
      t,
      laws.object_meta.stable h i j x.meta y.meta g m,
      copy_playbook_spec_into-Deep.stable h i j x.spec y.spec g s,
      copy_playbook_status_into-Deep.stable h i j x.status y.status g c,
    );
    copies = λ h i x y (t, m, s, c).
        Copied-bind i (L.copy_object_meta y.meta) _ (laws.object_meta.copies h i x.meta y.meta m)
          λ meta j g _.
            Copied-bind j (copy_playbook_spec_into L y.spec) _
              (copy_playbook_spec_into-Deep.copies h j x.spec y.spec
                (copy_playbook_spec_into-Deep.stable h i j x.spec y.spec g s))
              λ spec k g' _.
                Copied-bind k (copy_playbook_status_into L y.status) _
                  (copy_playbook_status_into-Deep.copies h k x.status y.status (
                    copy_playbook_status_into-Deep.stable h j k x.status y.status g'
                      (copy_playbook_status_into-Deep.stable h i j x.status y.status g c)))
                  λ status l g'' _.
                    Copied-pure l (record y { meta = meta; spec = spec; status = status })
                      (λ later c' s' m'. (t, m', s', c'));
  }

  pub copy_playbook_list_into-Deep :
      Deep M (AlikeList L laws (playbook_array M) AlikePlaybook) (copy_playbook_list_into L)
  unfolding copy_playbook_list_into
  copy_playbook_list_into-Deep =
      Deep-list L laws (playbook_array M) AlikePlaybook (copy_playbook_into L)
        (copy_playbook_list_into L) (λ xs. refl) copy_playbook_into-Deep (λ x. refl)
