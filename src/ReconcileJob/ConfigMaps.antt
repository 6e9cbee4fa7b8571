-- ===== src/ReconcileJob/ConfigMaps.antt =====
-- `ensureConfigmapWithData`: a config map of the reconcile job with exactly this data.
pub mod Laws
pub mod Calm
use ansible_operator.Base.{
  String, ◌<>◌, Bool, true, false, ◌&&◌, ◌||◌, some, List, [], ◌∷◌, Error, not_found, other, errorf,
  wrap, Exec, pure, fail, lift, with_error, trying, ◌>>=◌, ◌>>◌, ◌==◌, if◌then◌else◌,
}
use ansible_operator.Base.Maps.{Map, equal_maps}
use ansible_operator.Api.{ObjectKey, ObjectMeta, OwnerReference, named}
use ansible_operator.Kube.{
  ConfigMap, Platform, Session, create_config_map, update_config_map, read, send,
}

abbrev owns : String → List OwnerReference → Bool
owns name [] = false
owns name (ref ∷ refs) = ref.kind == "AnsibleReconcileJob" && ref.name == name || owns name refs

unfoldable pub is_configmap_owned_by_ansible_reconcile_job : ConfigMap → ObjectMeta → Bool
is_configmap_owned_by_ansible_reconcile_job cm job = owns job.name cm.meta.owner_references

module _ (P : Platform) {T : Type 0} (name : String) (wanted : Map String) (job : ObjectMeta) where
  unfoldable pub replace_data : ConfigMap → Exec (Session P T) (Unit {0})
  replace_data cm =
      if is_configmap_owned_by_ansible_reconcile_job cm job
      then if equal_maps cm.data_map (some wanted) then pure tt else (do
        let updated : ConfigMap = record cm { data_map = some wanted }
        with_error (wrap ("failed to update configmap " <> name))
            (send (update_config_map updated) (P.update_config_map updated))
        pure tt)
      else fail
          (errorf ("configmap " <> (name <> " exists but is not owned by AnsibleReconcileJob")))

  unfoldable pub create_with_data : Exec (Session P T) (Unit {0})
  create_with_data = do
    meta ←
        with_error (wrap ("failed to set owner reference for configmap " <> name))
          (lift (P.set_controller_reference "AnsibleReconcileJob" job (named name job.namespace)))
    let cm : ConfigMap = record { meta = meta; data_map = some wanted }
    with_error (wrap ("failed to create configmap " <> name))
        (send (create_config_map cm) (P.create_config_map cm))
    pure tt

  unfoldable pub ensure_configmap_with_data : Exec (Session P T) (Unit {0})
  ensure_configmap_with_data =
      trying (read (P.get_config_map (record { namespace = job.namespace; name = name })))
        (λ e. elim e.reason [
          | not_found ↦ create_with_data
          | other ↦ fail (wrap ("failed to get configmap " <> name) e)
        ])
        replace_data
