-- ===== src/DeepCopy/Laws/Jobs.antt =====
-- The copies of `AnsibleReconcileJob`, its parts and its list are deep.
use ansible_operator.Base.{◌≡◌, refl}
use ansible_operator.DeepCopy.Structs.{Machinery, AnsibleReconcileJob}
use ansible_operator.DeepCopy.Memory.{job_array}
use ansible_operator.DeepCopy.Library.{Library}
use ansible_operator.DeepCopy.Copied.{Copied-pure, Copied-bind}
use ansible_operator.DeepCopy.Alike.{Relation, Deep}
use ansible_operator.DeepCopy.Laws.{LibraryLaws, AlikeStatus, Deep-status, AlikeList, Deep-list}
use ansible_operator.DeepCopy.Jobs.{copy_job_status_into, copy_job_into, copy_job_list_into}

module _ {M : Machinery} (L : Library M) (laws : LibraryLaws L) where
  copy_job_status_into-Deep : Deep M (AlikeStatus L laws) (copy_job_status_into L)
  unfolding copy_job_status_into
  copy_job_status_into-Deep = Deep-status L laws (copy_job_status_into L) (λ x. refl)

  abbrev pub AlikeReconcileJob : Relation M (AnsibleReconcileJob M)
  AlikeReconcileJob h x i y =
      (y.type_meta ≡ x.type_meta)
      × laws.AlikeMeta h x.meta i y.meta
      × (y.spec ≡ x.spec)
      × AlikeStatus L laws h x.status i y.status

  pub copy_job_into-Deep : Deep M AlikeReconcileJob (copy_job_into L)
  unfolding copy_job_into
  copy_job_into-Deep = record {
    stable = λ h i j x y g (t, m, s, c). (
      t,
      laws.object_meta.stable h i j x.meta y.meta g m,
      s,
      copy_job_status_into-Deep.stable h i j x.status y.status g c,
    );
    copies = λ h i x y (t, m, s, c).
        Copied-bind i (L.copy_object_meta y.meta) _ (laws.object_meta.copies h i x.meta y.meta m)
          λ meta j g _.
            Copied-bind j (copy_job_status_into L y.status) _
              (copy_job_status_into-Deep.copies h j x.status y.status
                (copy_job_status_into-Deep.stable h i j x.status y.status g c))
              λ status k g' _.
                Copied-pure k (record y { meta = meta; spec = y.spec; status = status })
                  (λ later c' m'. (t, m', s, c'));
  }

  pub copy_job_list_into-Deep :
      Deep M (AlikeList L laws (job_array M) AlikeReconcileJob) (copy_job_list_into L)
  unfolding copy_job_list_into
  copy_job_list_into-Deep =
      Deep-list L laws (job_array M) AlikeReconcileJob (copy_job_into L) (copy_job_list_into L)
        (λ xs. refl) copy_job_into-Deep (λ x. refl)
