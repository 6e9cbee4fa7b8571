-- ===== src/Tests/Keys.antt =====
-- Stored host keys, the volumes of the pod, and ports in the inventory.
use ansible_operator.Base.{
  String, ◌≡◌, ◌<>◌, refl, some, true, [], ◌∷◌, List, map, ok, none, ne_of_test, string_dec, ◌≢◌,
  arith,
}
use ansible_operator.Base.Maps.{lookup}
use ansible_operator.Base.Sorting.{sorted, insert_sorted, text_le}
use ansible_operator.Kube.{Secret}
use ansible_operator.Kube.Memory.{memory}
use ansible_operator.Ssh.Keyscan.{Network, concatenated, host_keys_to_sorted_string}
use ansible_operator.ReconcileJob.KnownHosts.{known_hosts_of_secret}
use ansible_operator.ReconcileJob.KnownHosts.StoredKeys.{
  AuthorizedKeys, OneLine, known_hosts_of_stored_keys,
}
use ansible_operator.ReconcileJob.CronJobs.Construct.{construct_cronjob_with_mounts}
use ansible_operator.ReconcileJob.CronJobs.Names.{
  Distinct, volume_names, construct_cronjob_with_mounts-Distinct,
}
use ansible_operator.ReconcileJob.Inventory.Content.{InventoryContentHost}
use ansible_operator.ReconcileJob.Inventory.Render.{render_host}
use ansible_operator.ReconcileJob.Inventory.Render.Ports.{render_host-port}
use ansible_operator.Tests.Data.{web, meta}
use ansible_operator.Tests.Jobs.{one_of_each}

-- Two kinds of key.
data Key : Type 0 where
  ed25519 rsa : Key

abbrev key_line : Key → String
key_line ed25519 = "ssh-ed25519 AAAA"
key_line rsa = "ssh-rsa BBBB"

abbrev key_text : Key → String
key_text ed25519 = "ssh-ed25519 AAAA\n"
key_text rsa = "ssh-rsa BBBB\n"

abbrev keyed : Network
keyed = record {
  PublicKey = Key;
  marshal = key_line;
  marshal_authorized_key = key_text;
  dial = λ host port algos. none;
  set_deadline = λ host port algos. none;
  new_client_conn =
      λ host port algos. record { captured = some rsa; error = none; close_connection = none };
  close = λ host port algos. none;
}

key_text_line : (k : Key) → key_text k ≡ key_line k <> "\n"
key_text_line ed25519 = refl
key_text_line rsa = refl

key_line-OneLine : (k : Key) → OneLine (key_line k)
key_line-OneLine ed25519 = grind arith
key_line-OneLine rsa = grind arith

key_ne : (k : Key) → key_line k ≢ ""
key_ne ed25519 = ne_of_test _ _ refl
key_ne rsa = ne_of_test _ _ refl

keyed-AuthorizedKeys : AuthorizedKeys keyed
keyed-AuthorizedKeys = record {
  line = key_line;
  is_line = key_text_line;
  one_line = key_line-OneLine;
  not_empty = key_ne;
}

abbrev scanned : List Key
scanned = rsa ∷ ed25519 ∷ []

abbrev stored_keys : Secret
stored_keys = record {
  meta = meta "web-host-keys";
  data_map = ("host_keys", "ssh-ed25519 AAAA\nssh-rsa BBBB\n") ∷ [];
}

keys_stored :
    lookup "host_keys" stored_keys.data_map ≡ some (host_keys_to_sorted_string keyed scanned)
unfolding lookup host_keys_to_sorted_string sorted insert_sorted text_le string_dec
keys_stored = refl

known_hosts_of_stored_keys_example :
    known_hosts_of_secret memory web stored_keys
    ≡ ok (concatenated (map (λ text. "10.0.0.1" <> (" " <> text)) (sorted (map key_text scanned))))
known_hosts_of_stored_keys_example =
    known_hosts_of_stored_keys keyed keyed-AuthorizedKeys memory web stored_keys scanned keys_stored

construct_cronjob_with_mounts-Distinct_example :
    Distinct (volume_names (construct_cronjob_with_mounts one_of_each).pod.volumes)
construct_cronjob_with_mounts-Distinct_example =
    construct_cronjob_with_mounts-Distinct one_of_each (tt, tt) (tt, tt) (tt, tt)

abbrev web_entry : InventoryContentHost
web_entry = record {
  kubernetes_name = "web";
  inventory_name = "web1";
  hostname = "10.0.0.1";
  port = 22;
  username = "root";
  become = true;
}

render_host-port_example :
    render_host (record web_entry { port = 22 }) ≢ render_host (record web_entry { port = 2222 })
render_host-port_example = render_host-port web_entry 22 2222 (omega arith)
