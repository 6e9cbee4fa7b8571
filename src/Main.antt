-- ===== src/Main.antt =====
-- The program's start (cmd/main.go): `init` and `main`, up to the exit status.
pub mod Options
pub mod Hardening
pub mod Order
use ansible_operator.Base.{ℕ, Exec, Result, ok, err, panic}
use ansible_operator.Kube.{Platform}
use ansible_operator.Manager.{Manager}
use ansible_operator.Manager.Calls.{
  Startup, add_to_scheme, get_config, new_manager, add_healthz_check, add_readyz_check, start,
  invoke,
}
use ansible_operator.Host.Setup.{setup_with_manager as setup_hosts}
use ansible_operator.Group.Setup.{setup_with_manager as setup_groups}
use ansible_operator.Playbook.{setup_with_manager as setup_playbooks}
use ansible_operator.ReconcileJob.Setup.{setup_with_manager as setup_reconcile_jobs}
use Options.{Flags, manager_options}

module _ {P : Platform} (M : Manager P) where
  -- A program from here on, to its exit status: a panic of Go exits with 2.
  abbrev pub Program : Type 0
  Program = Startup M → ℕ × Startup M

  abbrev pub finish : Program
  finish s = (0, s)

  abbrev pub leave : ℕ → Result (Unit {0}) → Program → Program
  leave status (ok a) rest s = rest s
  leave status (err e) rest s = (status, s)
  leave status panic rest s = (2, s)

  -- An error ends the program with this status, a panic with 2.
  abbrev pub exiting : ℕ → Exec (Startup M) (Unit {0}) → Program → Program
  exiting status m rest s = let (r, s') = m s in leave status r rest s'

  -- `utilruntime.Must(m)`: an error is a panic.
  abbrev pub must : Exec (Startup M) (Unit {0}) → Program → Program
  must = exiting 2

  -- `if err := m; err != nil { os.Exit(1) }`
  abbrev pub or_exit : Exec (Startup M) (Unit {0}) → Program → Program
  or_exit = exiting 1

  -- the four calls of `SetupWithManager`
  unfoldable pub setup_controllers : Program → Program
  setup_controllers rest = or_exit (setup_hosts M) (
      or_exit (setup_groups M)
        (or_exit (setup_playbooks M) (or_exit (setup_reconcile_jobs M) rest)))

  -- `main` after the flags are parsed
  unfoldable pub main : Flags → Program
  unfolding setup_controllers
  main flags = or_exit (invoke M get_config) (
      or_exit (invoke M (new_manager (manager_options flags))) (
        setup_controllers (
          or_exit (invoke M (add_healthz_check "healthz"))
            (or_exit (invoke M (add_readyz_check "readyz")) (or_exit (invoke M start) finish)))))

  -- `init`, then `main`
  unfoldable pub run : Flags → Program
  unfolding main
  run flags =
      must (invoke M (add_to_scheme "client-go"))
        (must (invoke M (add_to_scheme "ansible-operator.lightjack.de/v1alpha1")) (main flags))
