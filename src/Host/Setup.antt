-- ===== src/Host/Setup.antt =====
-- `SetupWithManager` of the host controller.
use ansible_operator.Base.{[], ◌∷◌, Exec}
use ansible_operator.Kube.{Platform}
use ansible_operator.Manager.{Manager, Registration, ansible_host, secret, config_map}
use ansible_operator.Manager.Calls.{Startup, complete, invoke}

unfoldable pub registration : (P : Platform) → Registration P
registration P = record {
  named = "ansiblehost";
  reconciles = ansible_host;
  owns = secret ∷ config_map ∷ [];
  watches = [];
  max_concurrent_reconciles = 100;
}

unfoldable pub setup_with_manager : {P : Platform} (M : Manager P) → Exec (Startup M) (Unit {0})
setup_with_manager {P} M = invoke M (complete (registration P))
