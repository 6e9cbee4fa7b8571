-- ===== src/Tests/Calm.antt =====
-- The server in memory does not panic, nor do the reconciles with it.
use ansible_operator.Base.{List, [], ◌∷◌, ◌≡◌, ok, All, OnOk, arith, String}
use mathlib.Core.Path.{subst}
use ansible_operator.Base.Calm.{NoPanic, Calm}
use ansible_operator.Api.{ObjectKey, ObjectMeta, object_key, AnsibleHost}
use ansible_operator.Kube.{ConfigMap}
use ansible_operator.Kube.Calm.{NeverPanics}
use ansible_operator.Kube.{Platform}
use ansible_operator.Kube.Memory.{memory, Memory, fetch, create}
use ansible_operator.Group.Reconcile.{reconcile_group}
use ansible_operator.Group.Reconcile.Calm.{reconcile_group-Calm}
use ansible_operator.Host.Reconcile.{reconcile_host}
use ansible_operator.Host.Reconcile.Calm.{reconcile_host-Calm}
use ansible_operator.ReconcileJob.Reconcile.{reconcile_job}
use ansible_operator.ReconcileJob.Reconcile.Calm.{reconcile_job-Calm}
use ansible_operator.ReconcileJob.Inventory.Calm.{Privileged}
use ansible_operator.Tests.Data.{web, two_keys, in_order, accept}

module _ {A : Type 0} (meta : A → ObjectMeta) where
  fetch-NoPanic : (k : ObjectKey) (xs : List A) → NoPanic (fetch meta k xs)
  unfolding fetch
  fetch-NoPanic k [] = tt
  fetch-NoPanic k (x ∷ xs) = ground (arith, fetch-NoPanic k xs)

create-NoPanic : (c : ConfigMap) (s : Memory) → NoPanic (create c s).0
unfolding create
create-NoPanic c s =
    ground (arith, fetch-NoPanic (λ (x : ConfigMap). x.meta) (object_key c.meta) s.config_maps)

memory-NeverPanics : NeverPanics memory
memory-NeverPanics = record {
  get_host = λ k s. fetch-NoPanic (λ x. x.meta) k s.hosts;
  get_group = λ k s. fetch-NoPanic (λ x. x.meta) k s.groups;
  get_playbook = λ k s. fetch-NoPanic (λ x. x.meta) k s.playbooks;
  get_config_map = λ k s. fetch-NoPanic (λ x. x.meta) k s.config_maps;
  get_secret = λ k s. fetch-NoPanic (λ x. x.meta) k s.secrets;
  get_cron_job = λ k s. fetch-NoPanic (λ x. x.meta) k s.cron_jobs;
  list_hosts = λ n s. tt;
  list_groups = λ n s. tt;
  list_jobs = λ n label value s. tt;
  create_config_map = create-NoPanic;
  update_config_map = λ c s. tt;
  create_secret = λ c s. tt;
  update_cron_job = λ c s. tt;
  apply_cron_job = λ c s. tt;
  update_host_status = λ h s. tt;
  update_group_status = λ g s. tt;
  update_reconcile_job_status = λ j s. tt;
  to_unstructured = λ c. tt;
  set_controller_reference = λ kind owner object. tt;
}

reconcile_group-Calm_example : Calm (reconcile_group memory)
reconcile_group-Calm_example = reconcile_group-Calm memory memory-NeverPanics

reconcile_host-Calm_example : Calm (reconcile_host memory two_keys in_order accept web)
reconcile_host-Calm_example =
    reconcile_host-Calm memory memory-NeverPanics two_keys in_order accept (λ text. tt) web

-- A server that lists one host, which says how to gain privileges.
abbrev one_host : Platform
one_host = record memory { list_hosts = λ n s. ok (web ∷ []) }

one_host-NeverPanics : NeverPanics one_host
one_host-NeverPanics = record {
  get_host = memory-NeverPanics.get_host;
  get_group = memory-NeverPanics.get_group;
  get_playbook = memory-NeverPanics.get_playbook;
  get_config_map = memory-NeverPanics.get_config_map;
  get_secret = memory-NeverPanics.get_secret;
  get_cron_job = memory-NeverPanics.get_cron_job;
  list_hosts = λ n s. tt;
  list_groups = λ n s. tt;
  list_jobs = λ n label value s. tt;
  create_config_map = create-NoPanic;
  update_config_map = λ c s. tt;
  create_secret = λ c s. tt;
  update_cron_job = λ c s. tt;
  apply_cron_job = λ c s. tt;
  update_host_status = λ h s. tt;
  update_group_status = λ g s. tt;
  update_reconcile_job_status = λ j s. tt;
  to_unstructured = λ c. tt;
  set_controller_reference = λ kind owner object. tt;
}

web-Privileged :
    (namespace : String) (s : Memory) (hosts : List AnsibleHost)
    → one_host.list_hosts namespace s ≡ ok hosts
    → All Privileged hosts
web-Privileged namespace s hosts listed = subst (OnOk (All Privileged)) listed (tt, tt)

reconcile_job-Calm_example : Calm (reconcile_job one_host)
reconcile_job-Calm_example = reconcile_job-Calm one_host one_host-NeverPanics web-Privileged
