-- ===== src/ReconcileJob/Inventory/Ensure.antt =====
-- `constructInventoryContent` and `ensureInventoryConfigmap`.
use ansible_operator.Base.{
  String, ◌<>◌, [], ◌∷◌, Result, ok, err, panic, wrap, Exec, lift, with_error, pure, ◌>>=◌,
}
use ansible_operator.Base.Maps.{Map}
use ansible_operator.Api.{AnsibleHost, AnsibleGroup, AnsibleReconcileJob}
use ansible_operator.Kube.{Platform, Session, read}
use ansible_operator.ReconcileJob.ConfigMaps.{ensure_configmap_with_data}
use ansible_operator.ReconcileJob.Inventory.Content.{
  inventory_content, hosts_by_name, groups_by_name,
}
use ansible_operator.ReconcileJob.Inventory.Render.{render_inventory_template}

abbrev pub inventory_config_map_name_suffix : String
inventory_config_map_name_suffix = "-inventory"

abbrev pub inventory_config_map_key : String
inventory_config_map_key = "inventory.yaml"

unfoldable pub construct_inventory_content : Map AnsibleHost → Map AnsibleGroup → Result String
unfolding inventory_content render_inventory_template
construct_inventory_content hosts groups = elim (inventory_content hosts groups) [
  | ok content ↦ ok (render_inventory_template content)
  | err e ↦ err e
  | panic ↦ panic
]

module _ (P : Platform) {T : Type 0} where
  unfoldable pub get_ansible_hosts_in_namespace : String → Exec (Session P T) (Map AnsibleHost)
  unfolding hosts_by_name
  get_ansible_hosts_in_namespace namespace = do
    hosts ←
        with_error (wrap ("failed to list AnsibleHosts in namespace " <> namespace))
          (read (P.list_hosts namespace))
    pure (hosts_by_name hosts [])

  unfoldable pub get_ansible_groups_in_namespace : String → Exec (Session P T) (Map AnsibleGroup)
  unfolding groups_by_name
  get_ansible_groups_in_namespace namespace = do
    groups ←
        with_error (wrap ("failed to list AnsibleGroups in namespace " <> namespace))
          (read (P.list_groups namespace))
    pure (groups_by_name groups [])

  unfoldable pub ensure_inventory_configmap : AnsibleReconcileJob → Exec (Session P T) (Unit {0})
  ensure_inventory_configmap job = do
    hosts ←
        with_error (wrap "failed to get AnsibleHosts")
          (get_ansible_hosts_in_namespace job.meta.namespace)
    groups ←
        with_error (wrap "failed to get AnsibleGroups")
          (get_ansible_groups_in_namespace job.meta.namespace)
    inventory ←
        with_error (wrap "failed to construct inventory content")
          (lift (construct_inventory_content hosts groups))
    with_error (wrap "failed to ensure inventory configmap") (
        ensure_configmap_with_data P (job.meta.name <> inventory_config_map_name_suffix)
          ((inventory_config_map_key, inventory) ∷ []) job.meta)
