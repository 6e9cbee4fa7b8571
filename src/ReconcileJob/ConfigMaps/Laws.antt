-- ===== src/ReconcileJob/ConfigMaps/Laws.antt =====
-- What `ensureConfigmapWithData` does with a config map that is there, and what it leaves.
use ansible_operator.Base.{
  String, ◌≡◌, true, some, arith, Result, ok, err, panic, OnOk, Result-cases, is_ok, is_err,
  is_panic, ◌⊎◌,
}
use mathlib.Core.Path.{subst}
use ansible_operator.Base.Maps.{Map, equal_maps}
use ansible_operator.Api.{ObjectKey, ObjectMeta, object_key, named}
use ansible_operator.Kube.{ConfigMap, Platform, Session}
use ansible_operator.Kube.Laws.{ConfigMapLaws}
use ansible_operator.ReconcileJob.ConfigMaps.{
  is_configmap_owned_by_ansible_reconcile_job, replace_data, create_with_data,
  ensure_configmap_with_data,
}

abbrev pub map_key : String → ObjectMeta → ObjectKey
map_key name job = record { namespace = job.namespace; name = name }

-- The server has a config map with the wanted data: the map itself, or one that `maps.Equal` does
-- not tell from it.
abbrev pub HasData : Map String → Result ConfigMap → Type 0
HasData wanted (ok cm) = (cm.data_map ≡ some wanted) ⊎ (equal_maps cm.data_map (some wanted) ≡ true)
HasData wanted (err e) = ⊥
HasData wanted panic = ⊥

module _ (P : Platform) {T : Type 0} (name : String) (wanted : Map String) (job : ObjectMeta) where
  -- Where the server has an owned config map with the wanted data, nothing is sent.
  pub ensure_configmap_with_data_idle :
      (s : Session P T) (cm : ConfigMap)
      → P.get_config_map (map_key name job) s.server ≡ ok cm
      → is_configmap_owned_by_ansible_reconcile_job cm job ≡ true
      → equal_maps cm.data_map (some wanted) ≡ true
      → ensure_configmap_with_data P name wanted job s ≡ (ok tt, s)
  unfolding ensure_configmap_with_data replace_data
  ensure_configmap_with_data_idle s cm found owned same = rw (found, owned, same)

  module _ (laws : ConfigMapLaws P) where
    replace_data-HasData :
        (s : Session P T) (cm : ConfigMap)
        → P.get_config_map (map_key name job) s.server ≡ ok cm
        → (replace_data P name wanted job cm s).0 ≡ ok tt
        → HasData wanted
            (P.get_config_map (map_key name job) (replace_data P name wanted job cm s).1.server)
    unfolding replace_data
    replace_data-HasData s cm found =
        let updated : ConfigMap = record cm { data_map = some wanted } in
        let key : object_key cm.meta ≡ (map_key name job) =
          subst (λ r. OnOk (λ (c : ConfigMap). object_key c.meta ≡ (map_key name job)) r) found
            (laws.key-get (map_key name job) s.server) in
        λ h. ground (arith, laws.get-update updated s.server)

    create_with_data-HasData :
        (s : Session P T)
        → (create_with_data P name wanted job s).0 ≡ ok tt
        → HasData wanted
            (P.get_config_map (map_key name job) (create_with_data P name wanted job s).1.server)
    unfolding create_with_data
    create_with_data-HasData s =
        let bare : ObjectMeta = named name job.namespace in
        elim (Result-cases (P.set_controller_reference "AnsibleReconcileJob" job bare)) [
          | is_ok meta owned ↦
              let cm : ConfigMap = record { meta = meta; data_map = some wanted } in
              λ h. ground (
                arith,
                owned,
                laws.controlled "AnsibleReconcileJob" job bare,
                laws.get-create cm s.server,
              )
          | is_err f failed ↦ λ h. ground (arith, failed)
          | is_panic failed ↦ λ h. ground (arith, failed)
        ]

    -- Under the laws of config maps: where `ensureConfigmapWithData` returns without an error, the
    -- server has a config map of the wanted name with the wanted data, or with data that `maps.Equal`
    -- does not tell from them.
    pub ensure_configmap_with_data-HasData :
        (s : Session P T)
        → (ensure_configmap_with_data P name wanted job s).0 ≡ ok tt
        → HasData wanted (
            P.get_config_map
              (map_key name job)
              (ensure_configmap_with_data P name wanted job s).1.server)
    unfolding ensure_configmap_with_data
    ensure_configmap_with_data-HasData s h =
        elim (Result-cases (P.get_config_map (map_key name job) s.server)) [
          | is_ok cm found ↦ ground (arith, found, replace_data-HasData s cm found)
          | is_err e found ↦ ground (arith, found, create_with_data-HasData s)
          | is_panic found ↦ ground (arith, found)
        ]
