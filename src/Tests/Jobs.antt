-- ===== src/Tests/Jobs.antt =====
-- The reconcile job controller.
use ansible_operator.Base.{
  arith, ne_of_test, if◌then◌else◌, ◌≡◌, refl, true, false, [], ◌∷◌, ok, err, some, none, Error,
  errorf, wrap, string_dec,
}
use mathlib.Core.List.{perm_middle}
use mathlib.Core.List.Perm
use ansible_operator.ReconcileJob.Inventory.Determinism.{SameMap, construct_inventory_content_order}
use ansible_operator.Base.Maps.{Map, lookup, insert, equal_maps}
use ansible_operator.Base.Sorting.{sorted, insert_sorted, text_le}
use ansible_operator.Base.Texts.{split_lines, join, decimal}
use ansible_operator.Api.{AnsibleHost, AnsibleGroup, AnsibleReconcileJob}
use ansible_operator.Kube.{Platform, Session, done, CronJob}
use ansible_operator.Kube.Laws.{CronJobLaws}
use ansible_operator.Kube.Memory.{memory, fetch, store, create, within}
use ansible_operator.Kube.Memory.Conditions.{find_condition, set_condition as set_status_condition}
use ansible_operator.Kube.Memory.Lawful.{
  fetch-store, key-fetch, memory-ConditionLaws, memory-StatusLaws, memory-ConfigMapLaws,
}
use ansible_operator.ReconcileJob.Status.{
  push_status, set_condition, default_status_to_unknown, default_one, default_each,
  default_all_statuses_to_unknown,
}
use ansible_operator.ReconcileJob.Progress.{
  later_job, newest_job, update_successful_status, update_progressing_status, forget_jobs,
  report_newest, report_jobs, update_status_conditions,
}
use ansible_operator.ReconcileJob.Progress.Newest.{IsNewest, newest_job-IsNewest}
use ansible_operator.ReconcileJob.ConfigMaps.{
  is_configmap_owned_by_ansible_reconcile_job, replace_data, create_with_data,
  ensure_configmap_with_data,
}
use ansible_operator.ReconcileJob.ConfigMaps.Laws.{
  map_key, HasData, ensure_configmap_with_data-HasData,
}
use ansible_operator.ReconcileJob.RuntimeConfig.{runtime_config, ensure_runtime_config_map}
use ansible_operator.ReconcileJob.KnownHosts.Lines.{
  all_readable, texts_of_hosts, get_known_hosts_for_reconcile_job_texts,
}
use ansible_operator.ReconcileJob.KnownHosts.{
  prepend_host, known_hosts_of_secret, get_known_hosts_lines_for_host, collect_known_hosts,
  get_known_hosts_for_reconcile_job, ensure_known_hosts_secret_exists,
}
use ansible_operator.ReconcileJob.Inventory.Content.{
  map_ansible_host, map_each, host_entry, group_content, group_entry, inventory_content,
  hosts_by_name, groups_by_name,
}
use ansible_operator.ReconcileJob.Inventory.Ensure.{
  construct_inventory_content, get_ansible_hosts_in_namespace, get_ansible_groups_in_namespace,
  ensure_inventory_configmap,
}
use ansible_operator.ReconcileJob.Inventory.Resolution.{
  ending, panics, returns, errs, every, has_privilege, entry_resolves, ending-inventory_content,
}
use ansible_operator.ReconcileJob.CronJobs.Mounts.{
  AllMounted, construct_cronjob_with_mounts-AllMounted,
}
use ansible_operator.ReconcileJob.CronJobs.Construct.{
  CronJobInput, construct_cronjob_with_mounts, draft, first_draft,
}
use ansible_operator.ReconcileJob.CronJobs.Ensure.{cronjob_input, ensure_cronjob_with_mounts}
use ansible_operator.ReconcileJob.Reconcile.{
  suspend_cronjob, report_cause, handle_reconcile_error, at_err, conclude, ensure_all,
  reconcile_job,
}
use ansible_operator.ReconcileJob.Reconcile.Outcome.{Reported, reconcile_job-Reported}
use ansible_operator.ReconcileJob.Reconcile.Failure.{Handled, reconcile_job-Handled}
use ansible_operator.Tests.Data.{web, nightly, prod, session, meta, run_at}

abbrev pub start : Session memory AnsibleReconcileJob
start = session prod nightly

pub returns_done : (reconcile_job memory start).0 ≡ ok done
unfolding reconcile_job ensure_all conclude at_err handle_reconcile_error report_cause
    suspend_cronjob ensure_cronjob_with_mounts cronjob_input construct_cronjob_with_mounts draft
    first_draft ensure_inventory_configmap get_ansible_hosts_in_namespace
    get_ansible_groups_in_namespace construct_inventory_content map_ansible_host map_each host_entry
    group_content group_entry inventory_content hosts_by_name groups_by_name prepend_host
    known_hosts_of_secret get_known_hosts_lines_for_host collect_known_hosts
    get_known_hosts_for_reconcile_job ensure_known_hosts_secret_exists runtime_config
    ensure_runtime_config_map is_configmap_owned_by_ansible_reconcile_job replace_data
    create_with_data ensure_configmap_with_data later_job newest_job update_successful_status
    update_progressing_status forget_jobs report_newest report_jobs update_status_conditions
    push_status set_condition default_status_to_unknown default_one default_each
    default_all_statuses_to_unknown fetch store create within find_condition set_status_condition
    lookup insert equal_maps sorted insert_sorted text_le split_lines join decimal string_dec
returns_done = refl

reconcile_job-Reported_example :
    Reported memory memory-ConditionLaws memory-StatusLaws nightly.meta done
      (reconcile_job memory start).1
reconcile_job-Reported_example =
    reconcile_job-Reported memory memory-ConditionLaws memory-StatusLaws start done returns_done

newest_job-IsNewest_example :
    IsNewest
      (newest_job none (run_at 5 0 ∷ run_at 9 1 ∷ run_at 7 0 ∷ []))
      (run_at 5 0 ∷ run_at 9 1 ∷ run_at 7 0 ∷ [])
newest_job-IsNewest_example = newest_job-IsNewest (run_at 5 0 ∷ run_at 9 1 ∷ run_at 7 0 ∷ [])

-- A host without the optional `privilege`.
abbrev plain : AnsibleHost
plain = record web { spec = record web.spec { privilege = none } }

ending-inventory_content_example : ending (inventory_content (("web", plain) ∷ []) []) ≡ (
    if every (has_privilege (("web", plain) ∷ [])) ("web" ∷ [])
    then (if every (entry_resolves (("web", plain) ∷ []) []) [] then returns else errs)
    else panics)
ending-inventory_content_example = ending-inventory_content (("web", plain) ∷ []) []

-- The operator may not list jobs.
abbrev forbidden : Error
forbidden = errorf "forbidden"

abbrev forbidding : Platform
forbidding = record memory {
  list_jobs = λ n l v s. err forbidden;
  list_hosts = λ n s. err forbidden;
}

data_written :
    (ensure_configmap_with_data memory "nightly-inventory" (("k", "v") ∷ []) nightly.meta start).0
    ≡ ok tt
unfolding ensure_configmap_with_data replace_data create_with_data fetch store create string_dec
data_written = refl

ensure_configmap_with_data-HasData_example : HasData (("k", "v") ∷ []) (
    memory.get_config_map
      (map_key "nightly-inventory" nightly.meta)
      (ensure_configmap_with_data memory "nightly-inventory"
        (("k", "v") ∷ [])
        nightly.meta
        start).1.server)
ensure_configmap_with_data-HasData_example =
    ensure_configmap_with_data-HasData memory "nightly-inventory" (("k", "v") ∷ []) nightly.meta
      memory-ConfigMapLaws start data_written

-- The cron job as an earlier reconcile made it.
abbrev running : CronJob
running = record {
  meta = meta "nightly";
  schedule = "0 3 * * *";
  suspend = some false;
  concurrency_policy = "Forbid";
  template_labels = [];
  backoff_limit = some 1;
  pod = record {
    run_as_non_root = some true;
    fs_group = some 1000;
    restart_policy = "Never";
    init_containers = [];
    containers = [];
    volumes = [];
  };
}

-- Where the hosts cannot be listed, the first step fails.
abbrev blocked : Session forbidding AnsibleReconcileJob
blocked = record {
  server = record prod { cron_jobs = running ∷ [] };
  requests = [];
  object = nightly;
}

abbrev cause : Error
cause = wrap "error encountered during reconcile" (
    wrap "failed to ensure inventory configmap" (
      wrap "failed to get AnsibleHosts"
        (wrap "failed to list AnsibleHosts in namespace prod" forbidden)))

returns_cause : (reconcile_job forbidding blocked).0 ≡ err cause
unfolding reconcile_job ensure_all at_err handle_reconcile_error report_cause suspend_cronjob
    ensure_inventory_configmap get_ansible_hosts_in_namespace push_status set_condition
    default_status_to_unknown default_one default_each default_all_statuses_to_unknown fetch store
    find_condition set_status_condition string_dec
returns_cause = refl

forbidding-CronJobLaws : CronJobLaws forbidding
forbidding-CronJobLaws = record {
  key-get = λ k s. key-fetch (λ (x : CronJob). x.meta) k s.cron_jobs;
  get-update = λ c s p. fetch-store (λ x. x.meta) c s.cron_jobs;
  get-reconcile_job_status = λ k j s. refl;
}

reconcile_job-Handled_example :
    Handled forbidding forbidding-CronJobLaws (reconcile_job forbidding blocked) cause
reconcile_job-Handled_example =
    reconcile_job-Handled forbidding forbidding-CronJobLaws blocked cause returns_cause

abbrev pub one_of_each : CronJobInput
one_of_each = record {
  name = "nightly";
  namespace = "prod";
  schedule = "0 3 * * *";
  reconcile_job_name = "nightly";
  runtime_config_map_name = "nightly-job-config";
  known_hosts_config_map_name = "nightly-known-hosts";
  inventory_config_map_name = "nightly-inventory";
  key_secrets = record { owner_ansible_name = "web1"; owner = "web"; owned = "web-key" } ∷ [];
  host_vars_entries =
      record { owner_ansible_name = "web1"; owner = "web"; owned = "web-vars" } ∷ [];
  group_vars_entries =
      record { owner_ansible_name = "frontends"; owner = "front"; owned = "front-vars" } ∷ [];
}

construct_cronjob_with_mounts-AllMounted_example :
    AllMounted
      (construct_cronjob_with_mounts one_of_each).pod.init_containers
      (construct_cronjob_with_mounts one_of_each).pod.volumes
    × AllMounted
        (construct_cronjob_with_mounts one_of_each).pod.containers
        (construct_cronjob_with_mounts one_of_each).pod.volumes
construct_cronjob_with_mounts-AllMounted_example =
    construct_cronjob_with_mounts-AllMounted one_of_each

abbrev database : AnsibleHost
database = record web { meta = meta "db"; spec = record web.spec { ansible_name = "db1" } }

abbrev web_first : Map AnsibleHost
web_first = ("web", web) ∷ ("db", database) ∷ []

abbrev database_first : Map AnsibleHost
database_first = ("db", database) ∷ ("web", web) ∷ []

same_hosts : SameMap web_first database_first
unfolding lookup
same_hosts = record {
  same_keys = perm_middle ("web" ∷ []) [];
  same_values = λ k. ground (arith, ne_of_test "web" "db" refl);
}

no_groups : SameMap {V = AnsibleGroup} [] []
no_groups = record { same_keys = Perm.refl []; same_values = λ k. refl }

construct_inventory_content_order_example :
    construct_inventory_content web_first [] ≡ construct_inventory_content database_first []
construct_inventory_content_order_example =
    construct_inventory_content_order web_first database_first [] [] same_hosts no_groups

readable : all_readable memory (web ∷ database ∷ []) prod ≡ true
unfolding fetch lookup string_dec
readable = refl

get_known_hosts_for_reconcile_job_texts_example :
    get_known_hosts_for_reconcile_job memory (web ∷ database ∷ []) prod
    ≡ ok (texts_of_hosts memory (web ∷ database ∷ []) prod)
get_known_hosts_for_reconcile_job_texts_example =
    get_known_hosts_for_reconcile_job_texts memory (web ∷ database ∷ []) prod readable

-- Both hosts share the secret and the address.
known_hosts_run :
    get_known_hosts_for_reconcile_job memory (web ∷ database ∷ []) prod
    ≡ ok ("10.0.0.1 ssh-ed25519 A\n" ∷ "10.0.0.1 ssh-ed25519 A\n" ∷ [])
unfolding get_known_hosts_for_reconcile_job collect_known_hosts get_known_hosts_lines_for_host
    known_hosts_of_secret prepend_host split_lines fetch lookup string_dec
known_hosts_run = refl
