-- ===== src/DeepCopy/Laws/Groups.antt =====
-- The copies of `AnsibleGroup`, its parts and its list are deep.
use ansible_operator.Base.{◌≡◌, refl}
use ansible_operator.DeepCopy.Structs.{Machinery, AnsibleGroup, AnsibleGroupSpec}
use ansible_operator.DeepCopy.Memory.{pure, copy_slice, reference_array, group_array}
use ansible_operator.DeepCopy.Library.{Library}
use ansible_operator.DeepCopy.Copied.{Copied-pure, Copied-bind}
use ansible_operator.DeepCopy.Alike.{Relation, Deep}
use ansible_operator.DeepCopy.Laws.{
  LibraryLaws, AlikeReferences, AlikeStatus, references-Deep, Deep-status, AlikeList, Deep-list,
}
use ansible_operator.DeepCopy.Groups.{
  copy_group_status_into, copy_group_into, copy_group_list_into, copy_group_spec_into,
}

module _ {M : Machinery} (L : Library M) (laws : LibraryLaws L) where
  abbrev pub AlikeGroupSpec : Relation M AnsibleGroupSpec
  AlikeGroupSpec h x i y =
      (y.ansible_name ≡ x.ansible_name)
      × (y.group_vars ≡ x.group_vars)
      × AlikeReferences L laws h x.hosts i y.hosts
      × AlikeReferences L laws h x.groups i y.groups

  copy_group_spec_into-Deep : Deep M AlikeGroupSpec (copy_group_spec_into L)
  unfolding copy_group_spec_into
  copy_group_spec_into-Deep = record {
    stable = λ h i j x y g (p0, p1, q0, q1). (
      p0,
      p1,
      (references-Deep L laws).stable h i j x.hosts y.hosts g q0,
      (references-Deep L laws).stable h i j x.groups y.groups g q1,
    );
    copies = λ h i x y (p0, p1, q0, q1).
        Copied-bind i (copy_slice (reference_array M) pure y.hosts) _
          ((references-Deep L laws).copies h i x.hosts y.hosts q0)
          λ hosts' j g _.
            Copied-bind j (copy_slice (reference_array M) pure y.groups) _
              ((references-Deep L laws).copies h j x.groups y.groups
                ((references-Deep L laws).stable h i j x.groups y.groups g q1))
              λ groups' k g1 _.
                Copied-pure k (record y { hosts = hosts'; groups = groups' })
                  (λ later r1 r0. (p0, p1, r0, r1));
  }

  copy_group_status_into-Deep : Deep M (AlikeStatus L laws) (copy_group_status_into L)
  unfolding copy_group_status_into
  copy_group_status_into-Deep = Deep-status L laws (copy_group_status_into L) (λ x. refl)

  abbrev pub AlikeGroup : Relation M (AnsibleGroup M)
  AlikeGroup h x i y =
      (y.type_meta ≡ x.type_meta)
      × laws.AlikeMeta h x.meta i y.meta
      × (AlikeGroupSpec h x.spec i y.spec)
      × AlikeStatus L laws h x.status i y.status

  pub copy_group_into-Deep : Deep M AlikeGroup (copy_group_into L)
  unfolding copy_group_into
  copy_group_into-Deep = record {
    stable = λ h i j x y g (t, m, s, c). (
      t,
      laws.object_meta.stable h i j x.meta y.meta g m,
      copy_group_spec_into-Deep.stable h i j x.spec y.spec g s,
      copy_group_status_into-Deep.stable h i j x.status y.status g c,
    );
    copies = λ h i x y (t, m, s, c).
        Copied-bind i (L.copy_object_meta y.meta) _ (laws.object_meta.copies h i x.meta y.meta m)
          λ meta j g _.
            Copied-bind j (copy_group_spec_into L y.spec) _
              (copy_group_spec_into-Deep.copies h j x.spec y.spec
                (copy_group_spec_into-Deep.stable h i j x.spec y.spec g s))
              λ spec k g' _.
                Copied-bind k (copy_group_status_into L y.status) _
                  (copy_group_status_into-Deep.copies h k x.status y.status (
                    copy_group_status_into-Deep.stable h j k x.status y.status g'
                      (copy_group_status_into-Deep.stable h i j x.status y.status g c)))
                  λ status l g'' _.
                    Copied-pure l (record y { meta = meta; spec = spec; status = status })
                      (λ later c' s' m'. (t, m', s', c'));
  }

  pub copy_group_list_into-Deep :
      Deep M (AlikeList L laws (group_array M) AlikeGroup) (copy_group_list_into L)
  unfolding copy_group_list_into
  copy_group_list_into-Deep =
      Deep-list L laws (group_array M) AlikeGroup (copy_group_into L) (copy_group_list_into L)
        (λ xs. refl) copy_group_into-Deep (λ x. refl)
