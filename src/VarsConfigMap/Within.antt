-- ===== src/VarsConfigMap/Within.antt =====
-- How many requests a run of `ensureVarsConfigMap` sends.
use ansible_operator.Base.{String, arith}
use ansible_operator.Api.{ObjectMeta}
use ansible_operator.Kube.{Platform}
use ansible_operator.Kube.Within.{Within}
use ansible_operator.VarsConfigMap.{ensure_vars, create_vars_config_map, update_vars}

module _ (P : Platform) {T : Type 0} (kind : String) (owner : ObjectMeta) (vars : String) where
  pub ensure_vars-Within : Within {T = T} 2 (ensure_vars P kind owner vars)
  unfolding ensure_vars create_vars_config_map update_vars
  ensure_vars-Within = record { at = λ s. ground arith }
