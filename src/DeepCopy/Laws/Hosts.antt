-- ===== src/DeepCopy/Laws/Hosts.antt =====
-- The copies of `AnsibleHost`, its parts and its list are deep.
use ansible_operator.Base.{◌≡◌, refl}
use ansible_operator.DeepCopy.Structs.{Machinery, AnsibleHost, AnsibleHostSpec}
use ansible_operator.DeepCopy.Memory.{copy_pointer, privilege_struct, host_array}
use ansible_operator.DeepCopy.Library.{Library}
use ansible_operator.DeepCopy.Copied.{Copied-pure, Copied-bind}
use ansible_operator.DeepCopy.Alike.{Relation, Pointer, Deep, Deep-pointer}
use ansible_operator.DeepCopy.Laws.{LibraryLaws, AlikeStatus, Deep-status, AlikeList, Deep-list}
use ansible_operator.DeepCopy.Hosts.{
  copy_host_status_into, copy_host_into, copy_host_list_into, copy_host_spec_into,
}

module _ {M : Machinery} (L : Library M) (laws : LibraryLaws L) where
  abbrev pub AlikeHostSpec : Relation M AnsibleHostSpec
  AlikeHostSpec h x i y =
      (y.ansible_name ≡ x.ansible_name)
      × (y.connection ≡ x.connection)
      × (y.ssh ≡ x.ssh)
      × (y.host_vars ≡ x.host_vars)
      × Pointer M (privilege_struct M) h x.privilege i y.privilege

  privileges-Deep : Deep M (Pointer M (privilege_struct M)) (copy_pointer (privilege_struct M))
  privileges-Deep = Deep-pointer M (privilege_struct M) (λ x. refl)

  copy_host_spec_into-Deep : Deep M AlikeHostSpec (copy_host_spec_into L)
  unfolding copy_host_spec_into
  copy_host_spec_into-Deep = record {
    stable = λ h i j x y g (p0, p1, p2, p3, q0).
        (p0, p1, p2, p3, privileges-Deep.stable h i j x.privilege y.privilege g q0);
    copies = λ h i x y (p0, p1, p2, p3, q0).
        Copied-bind i (copy_pointer (privilege_struct M) y.privilege) _
          (privileges-Deep.copies h i x.privilege y.privilege q0)
          λ privilege' j g _.
            Copied-pure j (record y { privilege = privilege' }) (λ later r0. (p0, p1, p2, p3, r0));
  }

  copy_host_status_into-Deep : Deep M (AlikeStatus L laws) (copy_host_status_into L)
  unfolding copy_host_status_into
  copy_host_status_into-Deep = Deep-status L laws (copy_host_status_into L) (λ x. refl)

  abbrev pub AlikeHost : Relation M (AnsibleHost M)
  AlikeHost h x i y =
      (y.type_meta ≡ x.type_meta)
      × laws.AlikeMeta h x.meta i y.meta
      × (AlikeHostSpec h x.spec i y.spec)
      × AlikeStatus L laws h x.status i y.status

  pub copy_host_into-Deep : Deep M AlikeHost (copy_host_into L)
  unfolding copy_host_into
  copy_host_into-Deep = record {
    stable = λ h i j x y g (t, m, s, c). (
      t,
      laws.object_meta.stable h i j x.meta y.meta g m,
      copy_host_spec_into-Deep.stable h i j x.spec y.spec g s,
      copy_host_status_into-Deep.stable h i j x.status y.status g c,
    );
    copies = λ h i x y (t, m, s, c).
        Copied-bind i (L.copy_object_meta y.meta) _ (laws.object_meta.copies h i x.meta y.meta m)
          λ meta j g _.
            Copied-bind j (copy_host_spec_into L y.spec) _
              (copy_host_spec_into-Deep.copies h j x.spec y.spec
                (copy_host_spec_into-Deep.stable h i j x.spec y.spec g s))
              λ spec k g' _.
                Copied-bind k (copy_host_status_into L y.status) _
                  (copy_host_status_into-Deep.copies h k x.status y.status (
                    copy_host_status_into-Deep.stable h j k x.status y.status g'
                      (copy_host_status_into-Deep.stable h i j x.status y.status g c)))
                  λ status l g'' _.
                    Copied-pure l (record y { meta = meta; spec = spec; status = status })
                      (λ later c' s' m'. (t, m', s', c'));
  }

  pub copy_host_list_into-Deep :
      Deep M (AlikeList L laws (host_array M) AlikeHost) (copy_host_list_into L)
  unfolding copy_host_list_into
  copy_host_list_into-Deep =
      Deep-list L laws (host_array M) AlikeHost (copy_host_into L) (copy_host_list_into L)
        (λ xs. refl) copy_host_into-Deep (λ x. refl)
