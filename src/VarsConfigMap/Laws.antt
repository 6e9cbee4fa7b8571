-- ===== src/VarsConfigMap/Laws.antt =====
-- What a run of `ensureVarsConfigMap` leaves behind.
use ansible_operator.Base.{
  String, ◌<>◌, ◌≡◌, refl, true, none, some, [], ◌∷◌, arith, Error, Result, ok, err, panic, OnOk,
  Result-cases, is_ok, is_err, is_panic,
}
use mathlib.Core.Path.{subst}
use ansible_operator.Base.Maps.{StringMap, value_at, assign, insert, lookup-insert_self, entries}
use ansible_operator.Api.{ObjectMeta, object_key, named}
use ansible_operator.Kube.{ConfigMap, Platform, Session}
use ansible_operator.Kube.Laws.{ConfigMapLaws}
use ansible_operator.VarsConfigMap.{
  vars_config_map_suffix, vars_config_map_key, made, vars_key, create_vars_config_map, update_vars,
  ensure_vars,
}

-- The guard on a nil map keeps the assignment from panicking.
pub assign-made :
    (k v : String) (m : StringMap) → assign k v (made m) ≡ ok (some (insert k v (entries m)))
unfolding assign insert
assign-made k v none = refl
assign-made k v (some m) = refl

value_at-insert : (k v : String) (m : StringMap) → value_at k (some (insert k v (entries m))) ≡ v
unfolding value_at
value_at-insert k v m = rw (lookup-insert_self k v (entries m), value_at)

module _ (P : Platform) (owner : ObjectMeta) (vars : String) where
  -- The config map belongs to the owner and holds the variables.
  abbrev pub IsOwnVars : Result ConfigMap → Type 0
  IsOwnVars (ok cm) =
      (P.is_controlled_by cm.meta owner ≡ true)
      × (value_at vars_config_map_key (made cm.data_map) ≡ vars)
  IsOwnVars (err e) = ⊥
  IsOwnVars panic = ⊥

  abbrev pub InPlace : P.State → Type 0
  InPlace s = IsOwnVars (P.get_config_map (vars_key owner) s)

module _ (P : Platform) (laws : ConfigMapLaws P) (owner : ObjectMeta) (vars : String) where
  module _ {T : Type 0} (kind : String) where
    update_vars-InPlace :
        (cm : ConfigMap) (s : Session P T)
        → P.get_config_map (vars_key owner) s.server ≡ ok cm
        → (update_vars P kind owner vars cm s).0 ≡ ok tt
        → InPlace P owner vars (update_vars P kind owner vars cm s).1.server
    unfolding update_vars
    update_vars-InPlace cm s found =
        let updated : ConfigMap = record cm {
          data_map = some (insert vars_config_map_key vars (entries cm.data_map));
        } in
        let key : object_key cm.meta ≡ vars_key owner =
          subst (λ r. OnOk (λ (c : ConfigMap). object_key c.meta ≡ vars_key owner) r) found
            (laws.key-get (vars_key owner) s.server) in
        λ h. ground (
          arith,
          assign-made vars_config_map_key vars cm.data_map,
          laws.get-update updated s.server,
          value_at-insert vars_config_map_key vars cm.data_map,
        )

    -- A config map that the handler of a failed `Get` returns is stored.
    create_vars_config_map-stored :
        (e : Error) (s : Session P T)
        → OnOk
            (λ cm.
              P.get_config_map
                (vars_key owner)
                (create_vars_config_map P kind owner vars e s).1.server
              ≡ ok cm)
            (create_vars_config_map P kind owner vars e s).0
    unfolding create_vars_config_map
    create_vars_config_map-stored e s =
        let bare : ObjectMeta = named (owner.name <> vars_config_map_suffix) owner.namespace in
        elim (Result-cases (P.set_controller_reference kind owner bare)) [
          | is_ok meta owned ↦
              let cm : ConfigMap = record {
                meta = meta;
                data_map = some ((vars_config_map_key, vars) ∷ []);
              } in
              ground (
                arith,
                owned,
                laws.controlled kind owner bare,
                laws.create_echo cm s.server,
                laws.get-create cm s.server,
              )
          | is_err f failed ↦ ground (arith, failed)
          | is_panic failed ↦ ground (arith, failed)
        ]

    module _ (s : Session P T) where
      missing-InPlace :
          (e : Error)
          → P.get_config_map (vars_key owner) s.server ≡ err e
          → (ensure_vars P kind owner vars s).0 ≡ ok tt
          → InPlace P owner vars (ensure_vars P kind owner vars s).1.server
      unfolding ensure_vars
      missing-InPlace e found =
          rw found (elim (Result-cases (create_vars_config_map P kind owner vars e s).0) [
            | is_ok cm made ↦ ground (
              arith,
              made,
              create_vars_config_map-stored e s,
              update_vars-InPlace cm (create_vars_config_map P kind owner vars e s).1,
            )
            | is_err f failed ↦ ground (arith, failed)
            | is_panic failed ↦ ground (arith, failed)
          ])

      -- Under the laws of config maps: after a run of `ensureVarsConfigMap` without an error, the server
      -- has the object's config map, the object controls it, and its key `vars` holds the variables.
      pub ensure_vars-InPlace :
          (ensure_vars P kind owner vars s).0 ≡ ok tt
          → InPlace P owner vars (ensure_vars P kind owner vars s).1.server
      unfolding ensure_vars
      ensure_vars-InPlace = elim (Result-cases (P.get_config_map (vars_key owner) s.server)) [
        | is_ok cm found ↦ rw found (update_vars-InPlace cm s found)
        | is_err e found ↦ missing-InPlace e found
        | is_panic found ↦ rw found (λ h. cc)
      ]

-- A run that finds the config map in place sends nothing.
pub ensure_vars_idle :
    (P : Platform) {T : Type 0} (kind : String) (owner : ObjectMeta) (vars : String)
    (s : Session P T)
    → InPlace P owner vars s.server
    → ensure_vars P kind owner vars s ≡ (ok tt, s)
unfolding ensure_vars update_vars
ensure_vars_idle P kind owner vars s placed = ground arith

-- Under the laws of config maps: if a run of `ensureVarsConfigMap` returns without an error, then a
-- second run straight after it succeeds, sends nothing and leaves the session as it was.
pub ensure_vars_twice :
    (P : Platform) {T : Type 0} (laws : ConfigMapLaws P) (kind : String) (owner : ObjectMeta)
    (vars : String) (s : Session P T)
    → (ensure_vars P kind owner vars s).0 ≡ ok tt
    → ensure_vars P kind owner vars (ensure_vars P kind owner vars s).1
      ≡ (ok tt, (ensure_vars P kind owner vars s).1)
ensure_vars_twice P laws kind owner vars s done =
    ensure_vars_idle P kind owner vars (ensure_vars P kind owner vars s).1
      (ensure_vars-InPlace P laws owner vars kind s done)

-- The run leaves the object under reconciliation alone.
pub object-ensure_vars :
    (P : Platform) {T : Type 0} (kind : String) (owner : ObjectMeta) (vars : String)
    (s : Session P T)
    → (ensure_vars P kind owner vars s).1.object ≡ s.object
unfolding ensure_vars create_vars_config_map update_vars
object-ensure_vars P kind owner vars s = ground arith
