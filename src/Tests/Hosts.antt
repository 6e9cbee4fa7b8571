-- ===== src/Tests/Hosts.antt =====
-- The host controller and the key scan.
use mathlib.Core.Path.{subst}
use mathlib.Core.List.{Perm, append-nil, perm_middle}
use mathlib.Core.List.Perm
use ansible_operator.Base.{
  String, List, succeeded, nonempty, ◌≡◌, refl, [], ◌∷◌, ◌++◌, ok, inr, string_dec,
}
use ansible_operator.Base.Maps.{lookup, insert, value_at, assign}
use ansible_operator.Api.{AnsibleHost}
use ansible_operator.Kube.{Session, done}
use ansible_operator.Kube.Memory.{memory, fetch, store, create}
use ansible_operator.Kube.Memory.Conditions.{find_condition, set_condition as set_status_condition}
use ansible_operator.Kube.Memory.Lawful.{memory-ConditionLaws, memory-StatusLaws, memory-HostLaws}
use ansible_operator.VarsConfigMap.{ensure_vars, update_vars, create_vars_config_map}
use ansible_operator.Ssh.Dedup.{present}
use ansible_operator.Ssh.Found.{answered, Covers, scan_host-Covers, succeeded-scan_host}
use ansible_operator.Ssh.Keyscan.{
  scan_host_with_algos, deferred_close, take_key, collect, collected, Arrival, scan_host,
}
use ansible_operator.Ssh.Order.{NetworkLaws, IsArrival, stored_text, scan_host_order}
use ansible_operator.Host.Status.{push_status, put_ready, set_status_ready, set_status_not_ready}
use ansible_operator.Host.Secrets.{
  check_private_key, host_private_key_secret_exists, ensure_host_keys_secret_exists,
}
use ansible_operator.Host.Reconcile.{
  not_ready, finish, ensure_vars_config_map, with_vars, with_host_keys, reconcile_host,
}
use ansible_operator.Host.Reconcile.Known.{Stored}
use ansible_operator.Host.Reconcile.Outcome.{HasPrivateKey, Settled, reconcile_host-Settled}
use ansible_operator.Host.Reconcile.FirstUse.{
  KeysSettled, secrets_written, reconcile_host_first_use,
}
use ansible_operator.Tests.Data.{web, prod, session, accept, two_keys, in_order, host_keys}

abbrev start : Session memory AnsibleHost
start = session prod web

returns_done : (reconcile_host memory two_keys in_order accept web start).0 ≡ ok done
unfolding reconcile_host with_host_keys with_vars ensure_vars_config_map finish not_ready put_ready
    push_status set_status_ready set_status_not_ready check_private_key
    host_private_key_secret_exists ensure_host_keys_secret_exists ensure_vars update_vars
    create_vars_config_map fetch store create find_condition set_status_condition lookup insert
    value_at assign string_dec
returns_done = refl

web_there : Stored memory start
unfolding fetch string_dec
web_there = refl

reconcile_host-Settled_example :
    Settled memory memory-ConditionLaws memory-StatusLaws memory-HostLaws two_keys in_order accept
      (HasPrivateKey memory memory-ConditionLaws memory-StatusLaws memory-HostLaws two_keys in_order
        accept web prod)
      done
      (reconcile_host memory two_keys in_order accept web start).1
reconcile_host-Settled_example =
    reconcile_host-Settled memory memory-ConditionLaws memory-StatusLaws memory-HostLaws two_keys
      in_order accept web start done web_there returns_done

keys_there : KeysSettled memory two_keys in_order accept web prod
unfolding fetch string_dec
keys_there = inr (host_keys, refl)

reconcile_host_first_use_example :
    secrets_written (reconcile_host memory two_keys in_order accept web start).1.requests ≡ []
reconcile_host_first_use_example =
    reconcile_host_first_use memory two_keys in_order accept web start keys_there

two_keys-NetworkLaws : NetworkLaws two_keys
two_keys-NetworkLaws = record { text_of_marshal = λ k j p. p }

-- The first answer comes last.
abbrev first_last : Arrival two_keys
first_last [] = []
first_last (r ∷ rs) = rs ++ (r ∷ [])

in_order-IsArrival : IsArrival two_keys in_order
in_order-IsArrival l = Perm.refl l

first_last-IsArrival : IsArrival two_keys first_last
first_last-IsArrival [] = Perm.refl []
first_last-IsArrival (r ∷ rs) =
    subst (λ l. Perm (rs ++ (r ∷ [])) (r ∷ l)) (append-nil rs) (perm_middle rs [])

scan_host_order_example :
    stored_text two_keys (scan_host two_keys in_order "10.0.0.1" 22)
    ≡ stored_text two_keys (scan_host two_keys first_last "10.0.0.1" 22)
scan_host_order_example =
    scan_host_order two_keys two_keys-NetworkLaws in_order first_last in_order-IsArrival
      first_last-IsArrival "10.0.0.1" 22

abbrev five_keys : List String
five_keys =
    "ecdsa-sha2-nistp384" ∷ "ecdsa-sha2-nistp521" ∷ "ssh-ed25519" ∷ "ssh-rsa"
    ∷ "ecdsa-sha2-nistp256" ∷ []

scan_found : scan_host two_keys first_last "10.0.0.1" 22 ≡ ok five_keys
unfolding scan_host scan_host_with_algos deferred_close take_key collect collected string_dec
scan_found = refl

scan_host-Covers_example :
    Covers two_keys five_keys (present two_keys (answered two_keys first_last "10.0.0.1" 22))
scan_host-Covers_example = scan_host-Covers two_keys first_last "10.0.0.1" 22 five_keys scan_found

succeeded-scan_host_example :
    succeeded (scan_host two_keys in_order "10.0.0.1" 22)
    ≡ nonempty (present two_keys (answered two_keys in_order "10.0.0.1" 22))
succeeded-scan_host_example = succeeded-scan_host two_keys in_order "10.0.0.1" 22
