-- ===== src/VarsConfigMap/Calm.antt =====
-- `ensureVarsConfigMap` does not panic: it makes the map of a config map that has none.
use ansible_operator.Base.{String, Error}
use ansible_operator.Base.Calm.{NoPanic, Calm, Calm-reason, calm_rules}
use ansible_operator.Base.Maps.{StringMap, assign}
use ansible_operator.Api.{ObjectMeta}
use ansible_operator.Kube.{Platform, ConfigMap}
use ansible_operator.Kube.Calm.{NeverPanics, call_rules}
use ansible_operator.VarsConfigMap.{made, ensure_vars, update_vars, create_vars_config_map}
use ansible_operator.VarsConfigMap.Laws.{assign-made}

NoPanic-assign : (k v : String) (m : StringMap) → NoPanic (assign k v (made m))
NoPanic-assign k v m = rw (assign-made k v m) tt

module _ (P : Platform) (never : NeverPanics P) {T : Type 0} (kind : String) (owner : ObjectMeta)
    (vars : String) where
  create_vars_config_map-Calm :
      (e : Error) → Calm (create_vars_config_map P {T = T} kind owner vars e)
  unfolding create_vars_config_map
  create_vars_config_map-Calm e =
      Calm-reason e.reason _ _
        (search (calm_rules, call_rules, never.create_config_map, never.set_controller_reference)
          depth 10)
        (search calm_rules)

  update_vars-Calm : (cm : ConfigMap) → Calm (update_vars P {T = T} kind owner vars cm)
  unfolding update_vars
  update_vars-Calm cm =
      search (calm_rules, call_rules, never.update_config_map, NoPanic-assign) depth 12

  pub ensure_vars-Calm : Calm (ensure_vars P {T = T} kind owner vars)
  unfolding ensure_vars
  ensure_vars-Calm =
      search (
        calm_rules, call_rules, never.get_config_map, create_vars_config_map-Calm, update_vars-Calm,
      )
