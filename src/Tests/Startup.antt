-- ===== src/Tests/Startup.antt =====
-- The program's start with a manager that takes every call, and with one that does not.
use ansible_operator.Base.{ℕ, [], ◌≡◌, refl, All, Result, ok, errorf, err}
use ansible_operator.Kube.Memory.{memory}
use ansible_operator.Manager.{Manager}
use ansible_operator.Manager.Calls.{Startup}
use ansible_operator.Host.Setup.{setup_with_manager as setup_hosts}
use ansible_operator.Group.Setup.{setup_with_manager as setup_groups}
use ansible_operator.Playbook.{setup_with_manager as setup_playbooks}
use ansible_operator.ReconcileJob.Setup.{setup_with_manager as setup_reconcile_jobs}
use ansible_operator.Main.{main, run, setup_controllers}
use ansible_operator.Main.Options.{default_flags}
use ansible_operator.Main.Order.{plan, Follows, run-Follows}
use ansible_operator.Main.Hardening.{Hardened, Makes, run-Hardened}

abbrev fine : ℕ → Result (Unit {0}) × ℕ
fine n = (ok tt, n)

-- A manager whose state nothing changes.
abbrev willing : Manager memory
willing = record {
  State = ℕ;
  add_to_scheme = λ group. fine;
  get_config = fine;
  new_manager = λ options. fine;
  index_field = λ index. fine;
  complete = λ registration. fine;
  add_healthz_check = λ name. fine;
  add_readyz_check = λ name. fine;
  start = fine;
}

-- One that cannot set up an index.
abbrev unwilling : Manager memory
unwilling = record willing { index_field = λ index n. (err (errorf "index conflict"), n) }

abbrev before : Startup willing
before = record { manager = 0; calls = [] }

abbrev before_unwilling : Startup unwilling
before_unwilling = record { manager = 0; calls = [] }

fails_with_1 : (run unwilling default_flags before_unwilling).0 ≡ 1
unfolding run main setup_controllers setup_hosts setup_groups setup_playbooks setup_reconcile_jobs
fails_with_1 = refl

run-Follows_example :
    Follows unwilling
      (plan memory default_flags)
      before_unwilling
      (run unwilling default_flags before_unwilling).0
      (run unwilling default_flags before_unwilling).1
run-Follows_example = run-Follows unwilling default_flags before_unwilling

run-Hardened_example :
    All (Makes willing (Hardened default_flags)) (run willing default_flags before).1.calls
run-Hardened_example = run-Hardened willing default_flags before refl refl
