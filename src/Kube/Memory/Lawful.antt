-- ===== src/Kube/Memory/Lawful.antt =====
-- The server in memory meets the assumptions.
use ansible_operator.Base.{ap, ◌≡◌, ◌≢◌, refl, true, List, [], ◌∷◌, arith, ok, succeeded, OnOk}
use ansible_operator.Api.{ObjectKey, ObjectMeta, object_key}
use ansible_operator.Kube.Objects.{ConfigMap}
use ansible_operator.Kube.Laws.{
  ConditionLaws, StatusLaws, ConfigMapLaws, FrameLaws, HostLaws, MemberLaws, SecretLaws, IndexLaws,
}
use ansible_operator.Kube.Memory.{Memory, memory, fetch, store, create}
use ansible_operator.Kube.Memory.Conditions.{find-set_self, find-set_ne, unchanged, kept}

pub memory-ConditionLaws : ConditionLaws memory
memory-ConditionLaws = record {
  find-set_self = find-set_self;
  find-set_ne = find-set_ne;
  unchanged_iff_1 = unchanged;
  unchanged_iff_2 = kept;
}

pub memory-StatusLaws : StatusLaws memory
memory-StatusLaws = record {
  host_echo = λ h s p. refl;
  group_echo = λ g s p. refl;
  reconcile_job_echo = λ j s p. refl;
}

module _ {A : Type 0} (meta : A → ObjectMeta) where
  pub fetch-store :
      (a : A) (xs : List A) → fetch meta (object_key (meta a)) (store meta a xs) ≡ ok a
  unfolding fetch store
  fetch-store a [] = ground arith
  fetch-store a (x ∷ xs) = ground (arith, fetch-store a xs)

  pub key-fetch :
      (k : ObjectKey) (xs : List A) → OnOk (λ a. object_key (meta a) ≡ k) (fetch meta k xs)
  unfolding fetch
  key-fetch k [] = tt
  key-fetch k (x ∷ xs) = ground (arith, key-fetch k xs)

  fetch-store_ne :
      (k : ObjectKey) (a : A) (xs : List A)
      → k ≢ object_key (meta a)
      → fetch meta k (store meta a xs) ≡ fetch meta k xs
  unfolding fetch store
  fetch-store_ne k a [] ne = ground arith
  fetch-store_ne k a (x ∷ xs) ne = ground (arith, fetch-store_ne k a xs)

create_ok :
    (c : ConfigMap) (s : Memory)
    → succeeded (create c s).0 ≡ true
    → ((create c s).0 ≡ ok c) × ((create c s).1.config_maps ≡ store (λ x. x.meta) c s.config_maps)
unfolding create
create_ok c s h = ground arith

pub memory-ConfigMapLaws : ConfigMapLaws memory
memory-ConfigMapLaws = record {
  create_echo = λ c s h. (create_ok c s h).0;
  get-create = λ c s h. rw (create_ok c s h).1 (fetch-store (λ x. x.meta) c s.config_maps);
  get-update = λ c s h. fetch-store (λ x. x.meta) c s.config_maps;
  key-get = λ k s. key-fetch (λ (x : ConfigMap). x.meta) k s.config_maps;
  controlled = λ kind owner object. (ground arith, refl);
}

pub memory-IndexLaws : IndexLaws memory
memory-IndexLaws = record {
  groups_by = λ index value n s all e. ground (arith, e);
  reconcile_jobs_by = λ index value n s all e. ground (arith, e);
}

create_ne :
    (k : ObjectKey) (c : ConfigMap) (s : Memory)
    → k ≢ object_key c.meta
    → fetch (λ x. x.meta) k (create c s).1.config_maps ≡ fetch (λ x. x.meta) k s.config_maps
unfolding create
create_ne k c s ne = ground (arith, fetch-store_ne (λ x. x.meta) k c s.config_maps ne)

pub memory-FrameLaws : FrameLaws memory
memory-FrameLaws = record {
  get-create_ne = create_ne;
  get-update_ne = λ k c s ne. fetch-store_ne (λ x. x.meta) k c s.config_maps ne;
  get-apply_cron_job = λ k c s. refl;
  get-reconcile_job_status = λ k j s. refl;
  get-group_status = λ k g s. refl;
  get-host_status = λ k h s. refl;
}

pub memory-SecretLaws : SecretLaws memory
memory-SecretLaws = record { get-host_status = λ k h s. refl }

create-hosts : (c : ConfigMap) (s : Memory) → (create c s).1.hosts ≡ s.hosts
unfolding create
create-hosts c s = ground arith

pub memory-HostLaws : HostLaws memory
memory-HostLaws = record {
  get-host_status = λ h s p. fetch-store (λ x. x.meta) h s.hosts;
  get-create_config_map = λ k c s. ap (fetch (λ x. x.meta) k) (create-hosts c s);
  get-update_config_map = λ k c s. refl;
  get-create_secret = λ k x s. refl;
}

pub memory-MemberLaws : MemberLaws memory
memory-MemberLaws = record {
  get_group-group_status = λ g s p. fetch-store (λ x. x.meta) g s.groups;
  get_host-group_status = λ k g s. refl;
  get_group-group_status_ne = λ k g s ne. fetch-store_ne (λ x. x.meta) k g s.groups ne;
}
