-- ===== src/Tests/Delivery.antt =====
-- The cron job of `nightly` for `web` and `front`, and how much the controllers write.
use ansible_operator.Base.{refl, [], ◌∷◌, All, OnOk, ne_of_test}
use ansible_operator.Api.{ObjectKey, AnsibleHost}
use ansible_operator.Kube.Memory.{memory}
use ansible_operator.Kube.Within.{Within}
use ansible_operator.Group.Reconcile as Group
use ansible_operator.Host.Reconcile as Host
use ansible_operator.ReconcileJob.Reconcile as ReconcileJob
use ansible_operator.ReconcileJob.Inventory.Content.{map_ansible_host}
use ansible_operator.ReconcileJob.Inventory.Render.{render_host}
use ansible_operator.ReconcileJob.CronJobs.Delivery.KeyLine.{EndsIn, key_line}
use ansible_operator.ReconcileJob.CronJobs.Delivery.{
  Delivers, key_of_host, vars_of_host, vars_of_group, inventory_of, known_hosts_of, pod,
  construct_cronjob_with_mounts-Delivers,
}
use ansible_operator.Writes.{reconcile-Within}
use ansible_operator.Tests.Data.{meta, web, front, nightly, two_keys, in_order, accept}

abbrev db : AnsibleHost
db = record web { meta = meta "db"; spec = record web.spec { ansible_name = "db1" } }

construct_cronjob_with_mounts-Delivers_example :
    All
      (λ host. Delivers (pod nightly (web ∷ db ∷ []) (front ∷ [])) (key_of_host host))
      (web ∷ db ∷ [])
    × All
        (λ host.
          OnOk
            (λ c. EndsIn (key_line (key_of_host host).path) (render_host c))
            (map_ansible_host host))
        (web ∷ db ∷ [])
    × All
        (λ host. Delivers (pod nightly (web ∷ db ∷ []) (front ∷ [])) (vars_of_host host))
        (web ∷ db ∷ [])
    × All
        (λ group. Delivers (pod nightly (web ∷ db ∷ []) (front ∷ [])) (vars_of_group group))
        (front ∷ [])
    × Delivers (pod nightly (web ∷ db ∷ []) (front ∷ [])) (inventory_of nightly)
    × Delivers (pod nightly (web ∷ db ∷ []) (front ∷ [])) (known_hosts_of nightly)
construct_cronjob_with_mounts-Delivers_example =
    construct_cronjob_with_mounts-Delivers nightly (web ∷ db ∷ []) (front ∷ []) (record {
      hosts_named = ((ne_of_test "web" "db" refl, tt), (tt, tt));
      groups_named = (tt, tt);
      hosts_called = ((ne_of_test "web1" "db1" refl, tt), (tt, tt));
      groups_called = (tt, tt);
    })

abbrev some_key : ObjectKey
some_key = record { namespace = "prod"; name = "web" }

reconcile-Within_example :
    Within 8 (Group.reconcile memory some_key)
    × Within 4 (Host.reconcile memory two_keys in_order accept some_key)
    × Within 12 (ReconcileJob.reconcile memory some_key)
reconcile-Within_example = reconcile-Within memory some_key two_keys in_order accept
