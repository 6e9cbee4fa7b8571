-- ===== src/Group/Setup.antt =====
-- `SetupWithManager` of the group controller: two index functions, then the watches.
use ansible_operator.Base.{[], ◌∷◌, Exec, ◌>>◌}
use ansible_operator.Kube.{Platform}
use ansible_operator.Manager.{
  Manager, Registration, group_index, ansible_group, ansible_host, config_map,
}
use ansible_operator.Manager.Calls.{Startup, index_field, complete, invoke}
use ansible_operator.Group.Watches.{
  groups_index, host_index, requests_for_group_change, requests_for_host_change,
}

unfoldable pub registration : (P : Platform) → Registration P
registration P = record {
  named = "ansiblegroup";
  reconciles = ansible_group;
  owns = config_map ∷ [];
  watches =
      (ansible_host, requests_for_host_change P)
      ∷ (ansible_group, requests_for_group_change P)
      ∷ [];
  max_concurrent_reconciles = 0;
}

unfoldable pub setup_with_manager : {P : Platform} (M : Manager P) → Exec (Startup M) (Unit {0})
setup_with_manager {P} M = do
  invoke M (index_field (group_index ".spec.groups" groups_index))
  invoke M (index_field (group_index ".spec.hosts" host_index))
  invoke M (complete (registration P))
