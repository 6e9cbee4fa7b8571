-- ===== src/Tests/Convergence.antt =====
-- The host `web` with its variables in place.
use ansible_operator.Base.{◌≡◌, refl, true, some, [], ◌∷◌, ok, inr, string_dec, ne_of_test}
use ansible_operator.Base.Maps.{lookup, value_at}
use ansible_operator.Api.{AnsibleHost, condition_true}
use ansible_operator.Kube.{Session, ConfigMap, done}
use ansible_operator.Kube.Laws.{Has}
use ansible_operator.Kube.Memory.{memory, fetch}
use ansible_operator.Kube.Memory.Lawful.{
  memory-ConditionLaws, memory-StatusLaws, memory-FrameLaws, memory-SecretLaws,
}
use ansible_operator.Host.Secrets.{check_private_key, host_private_key_secret_exists}
use ansible_operator.Host.Reconcile.{reconcile_host}
use ansible_operator.Host.Reconcile.Convergence.{Prepared, reconcile_host_converges}
use ansible_operator.Tests.Data.{web, prod, session, accept, two_keys, in_order, host_keys, meta}

abbrev web_vars : ConfigMap
web_vars = record {
  meta = record (meta "web-vars") {
    owner_references =
        record { kind = "AnsibleHost"; name = "web"; uid = "web"; controller = true } ∷ [];
  };
  data_map = some (("vars", "a: 1") ∷ []);
}

abbrev prepared : Session memory AnsibleHost
prepared = session (record prod { config_maps = web_vars ∷ [] }) web

web-Prepared : Prepared memory two_keys in_order accept web prepared.server
unfolding host_private_key_secret_exists check_private_key fetch lookup value_at string_dec
web-Prepared = (refl, inr (host_keys, _, refl, refl, ne_of_test _ _ refl), (refl, refl))

reconcile_host_converges_example :
    ((reconcile_host memory two_keys in_order accept web prepared).0 ≡ ok done)
    × Has memory
        (reconcile_host memory two_keys in_order accept web prepared).1.object.conditions
        "Ready"
        condition_true
    × (reconcile_host memory two_keys in_order accept
          (reconcile_host memory two_keys in_order accept web prepared).1.object
          (reconcile_host memory two_keys in_order accept web prepared).1
        ≡ (ok done, (reconcile_host memory two_keys in_order accept web prepared).1))
reconcile_host_converges_example =
    reconcile_host_converges memory two_keys in_order accept memory-ConditionLaws memory-StatusLaws
      memory-FrameLaws memory-SecretLaws prepared web-Prepared refl
