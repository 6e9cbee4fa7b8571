-- ===== src/Tests/Data.antt =====
-- A small namespace: a host, a group, a playbook and a reconcile job.
use ansible_operator.Base.{String, ℕ, true, false, none, some, [], ◌∷◌, Result, ok}
use ansible_operator.Api.{
  ObjectMeta, named, AnsibleHost, AnsibleGroup, AnsiblePlaybook, AnsibleReconcileJob,
}
use ansible_operator.Kube.{Session, Secret, Job}
use ansible_operator.Kube.Memory.{Memory, memory}
use ansible_operator.Ssh.Keyscan.{Network, Arrival}

abbrev pub meta : String → ObjectMeta
meta name = record (named name "prod") { uid = name }

abbrev pub web : AnsibleHost
web = record {
  meta = meta "web";
  spec = record {
    ansible_name = "web1";
    connection = record { host = "10.0.0.1"; port = 22; user = "root" };
    ssh = record {
      ignore_host_key = false;
      ssh_key_secret_ref = record { name = "web-key" };
      ssh_host_key_secret_ref = record { name = "web-host-keys" };
    };
    privilege = some (record { become = true });
    host_vars = "a: 1";
  };
  conditions = [];
}

abbrev pub front : AnsibleGroup
front = record {
  meta = meta "front";
  spec = record {
    ansible_name = "frontends";
    hosts = record { name = "web" } ∷ record { name = "gone" } ∷ [];
    groups = [];
    group_vars = "b: 2";
  };
  conditions = [];
}

abbrev pub nightly : AnsibleReconcileJob
nightly = record {
  meta = meta "nightly";
  spec = record { schedule = "0 3 * * *"; playbook_ref = record { name = "site" } };
  conditions = [];
}

abbrev pub site : AnsiblePlaybook
site = record {
  meta = meta "site";
  spec = record {
    inline = some (record { requirements = ""; playbook = "- hosts: all" });
    git = none;
  };
  conditions = [];
}

abbrev pub private_key : Secret
private_key = record { meta = meta "web-key"; data_map = ("ssh_key", "PRIVATE") ∷ [] }

abbrev pub host_keys : Secret
host_keys = record { meta = meta "web-host-keys"; data_map = ("host_keys", "ssh-ed25519 A\n") ∷ [] }

abbrev pub run_at : ℕ → ℕ → Job
run_at time failures = record {
  meta = record (meta "run") {
    labels = ("ansible-operator.lightjack.de/owner-reconcile-job", "nightly") ∷ [];
  };
  start_time = some time;
  active = 0;
  succeeded = 0;
  failed = failures;
}

abbrev pub empty : Memory
empty = record {
  hosts = [];
  groups = [];
  playbooks = [];
  reconcile_jobs = [];
  config_maps = [];
  secrets = [];
  cron_jobs = [];
  jobs = [];
}

-- The group that names a host that is not there is left out.
abbrev pub prod : Memory
prod = record empty {
  hosts = web ∷ [];
  playbooks = site ∷ [];
  reconcile_jobs = nightly ∷ [];
  secrets = private_key ∷ host_keys ∷ [];
  jobs = run_at 5 0 ∷ run_at 9 1 ∷ run_at 7 0 ∷ [];
}

abbrev pub session : {T : Type 0} → Memory → T → Session memory T
session server object = record { server = server; requests = []; object = object }

abbrev pub accept : String → Result (Unit {0})
accept key = ok tt

-- A server with two keys; the other probes are refused.
abbrev pub two_keys : Network
two_keys = record {
  PublicKey = String;
  marshal = λ k. k;
  marshal_authorized_key = λ k. k;
  dial = λ host port algos. none;
  set_deadline = λ host port algos. none;
  new_client_conn = λ host port algos. elim algos [
    | [] ↦ record { captured = none; error = none; close_connection = none }
    | a ∷ _ ↦ record { captured = some a; error = none; close_connection = none }
  ];
  close = λ host port algos. none;
}

abbrev pub in_order : Arrival two_keys
in_order rs = rs
