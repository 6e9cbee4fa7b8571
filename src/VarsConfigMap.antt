-- ===== src/VarsConfigMap.antt =====
-- `ensureVarsConfigMap`, which the group and the host controller each have a copy of: the config
-- map `NAME-vars` that holds the object's Ansible variables. The copies differ in the kind of the
-- owner and in the error texts, which name the kind.
pub mod Laws
pub mod Calm
pub mod Within
use ansible_operator.Base.{
  String, ◌<>◌, Option, none, some, [], ◌∷◌, Error, not_found, other, errorf, wrap, Exec, pure,
  fail, lift, with_error, handling, ◌>>=◌, ◌>>◌, if◌then◌else◌, ◌==◌,
}
use ansible_operator.Base.Maps.{StringMap, value_at, assign}
use ansible_operator.Api.{ObjectKey, ObjectMeta, named}
use ansible_operator.Kube.{
  ConfigMap, Platform, Session, create_config_map, update_config_map, read, send,
}

abbrev pub vars_config_map_suffix : String
vars_config_map_suffix = "-vars"

-- `groupVarsConfigMapKey` and `hostVarsConfigMapKey`
abbrev pub vars_config_map_key : String
vars_config_map_key = "vars"

-- `if cm.Data == nil { cm.Data = make(map[string]string) }`
abbrev pub made : StringMap → StringMap
made none = some []
made (some m) = some m

abbrev pub vars_key : ObjectMeta → ObjectKey
vars_key owner = record { namespace = owner.namespace; name = owner.name <> vars_config_map_suffix }

module _ (P : Platform) {T : Type 0} (kind : String) (owner : ObjectMeta) (vars : String) where
  -- the handler of a failed `Get`
  unfoldable pub create_vars_config_map : Error → Exec (Session P T) ConfigMap
  create_vars_config_map e = elim e.reason [
    | not_found ↦ do
      meta ← with_error (wrap "failed to set owner reference for ConfigMap") (
          lift (
            P.set_controller_reference kind owner
              (named (owner.name <> vars_config_map_suffix) owner.namespace)))
      let cm : ConfigMap = record {
        meta = meta;
        data_map = some ((vars_config_map_key, vars) ∷ []);
      }
      with_error (wrap ("failed to create ConfigMap for " <> (kind <> " vars")))
          (send (create_config_map cm) (P.create_config_map cm))
    | other ↦ fail (wrap ("failed to get ConfigMap for " <> (kind <> " vars")) e)
  ]

  -- The check of the owner reference and the update.
  unfoldable pub update_vars : ConfigMap → Exec (Session P T) (Unit {0})
  update_vars cm =
      if P.is_controlled_by cm.meta owner
      then if value_at vars_config_map_key (made cm.data_map) == vars then pure tt else (do
        data_map ← lift (assign vars_config_map_key vars (made cm.data_map))
        let updated : ConfigMap = record cm { data_map = data_map }
        with_error (wrap ("failed to update ConfigMap for " <> (kind <> " vars")))
            (send (update_config_map updated) (P.update_config_map updated))
        pure tt)
      else fail (
          errorf (
            "ConfigMap "
            <> (cm.meta.name <> (" is not owned by " <> (kind <> (" " <> owner.name))))))

  unfoldable pub ensure_vars : Exec (Session P T) (Unit {0})
  ensure_vars = do
    cm ← handling (read (P.get_config_map (vars_key owner))) create_vars_config_map
    update_vars cm
