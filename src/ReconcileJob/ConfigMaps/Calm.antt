-- ===== src/ReconcileJob/ConfigMaps/Calm.antt =====
-- `ensureConfigmapWithData` does not panic.
use ansible_operator.Base.{String, arith, Result-cases, is_ok, is_err, is_panic}
use ansible_operator.Base.Calm.{Calm, calm_rules}
use ansible_operator.Base.Maps.{Map}
use ansible_operator.Api.{ObjectMeta, ObjectKey}
use ansible_operator.Kube.{Platform, ConfigMap}
use ansible_operator.Kube.Calm.{NeverPanics, call_rules}
use ansible_operator.ReconcileJob.ConfigMaps.{
  ensure_configmap_with_data, create_with_data, replace_data,
}
use ansible_operator.ReconcileJob.ConfigMaps.Laws.{map_key}

module _ (P : Platform) (never : NeverPanics P) {T : Type 0} (name : String) (wanted : Map String)
    (job : ObjectMeta) where
  replace_data-Calm : (cm : ConfigMap) → Calm (replace_data P {T = T} name wanted job cm)
  unfolding replace_data
  replace_data-Calm cm = search (calm_rules, call_rules, never.update_config_map) depth 12

  create_with_data-Calm : Calm (create_with_data P {T = T} name wanted job)
  unfolding create_with_data
  create_with_data-Calm =
      search (calm_rules, call_rules, never.create_config_map, never.set_controller_reference) depth
        12

  pub ensure_configmap_with_data-Calm : Calm (ensure_configmap_with_data P {T = T} name wanted job)
  unfolding ensure_configmap_with_data
  ensure_configmap_with_data-Calm =
      let key : ObjectKey = map_key name job in
      record {
        at = λ s. elim (Result-cases (P.get_config_map key s.server)) [
          | is_ok cm got ↦ ground (arith, got, (replace_data-Calm cm).at s)
          | is_err e got ↦ ground (arith, got, create_with_data-Calm.at s)
          | is_panic got ↦ ground (arith, got, never.get_config_map key s.server)
        ];
      }
