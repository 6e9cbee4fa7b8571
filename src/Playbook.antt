-- ===== src/Playbook.antt =====
-- The AnsiblePlaybook controller (internal/controller/ansibleplaybook_controller.go), whose reconcile
-- does nothing.
use ansible_operator.Base.{[], Exec, pure}
use ansible_operator.Api.{ObjectKey, AnsiblePlaybook}
use ansible_operator.Kube.{Platform, Session, ReconcileResult, done}
use ansible_operator.Manager.{Manager, Registration, ansible_playbook}
use ansible_operator.Manager.Calls.{Startup, complete, invoke}

unfoldable pub reconcile :
    (P : Platform) → ObjectKey → Exec (Session P AnsiblePlaybook) ReconcileResult
reconcile P key = pure done

unfoldable pub registration : (P : Platform) → Registration P
registration P = record {
  named = "ansibleplaybook";
  reconciles = ansible_playbook;
  owns = [];
  watches = [];
  max_concurrent_reconciles = 0;
}

unfoldable pub setup_with_manager : {P : Platform} (M : Manager P) → Exec (Startup M) (Unit {0})
setup_with_manager {P} M = invoke M (complete (registration P))
