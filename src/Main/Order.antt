-- ===== src/Main/Order.antt =====
-- The calls that the program's start makes, in order, and its exit status.
use ansible_operator.Base.{
  ℕ, ◌≡◌, refl, List, [], ◌∷◌, Error, Result, ok, err, panic, Exec, ◌>>=◌, continue,
}
use mathlib.Core.Path.{subst}
use ansible_operator.Kube.{Platform}
use ansible_operator.Manager.{Manager, group_index, reconcile_job_index}
use ansible_operator.Manager.Calls.{
  Call, Startup, add_to_scheme, get_config, new_manager, index_field, complete, add_healthz_check,
  add_readyz_check, start, invoke,
}
use ansible_operator.Group.Watches.{groups_index, host_index}
use ansible_operator.ReconcileJob.Watches.{playbook_index}
use ansible_operator.Host.Setup.{
  registration as host_registration, setup_with_manager as setup_hosts,
}
use ansible_operator.Group.Setup.{
  registration as group_registration, setup_with_manager as setup_groups,
}
use ansible_operator.Playbook.{
  registration as playbook_registration, setup_with_manager as setup_playbooks,
}
use ansible_operator.ReconcileJob.Setup.{
  registration as reconcile_job_registration, setup_with_manager as setup_reconcile_jobs,
}
use ansible_operator.Main.Options.{Flags, manager_options}
use ansible_operator.Main.{Program, finish, leave, exiting, setup_controllers, main, run}

module _ (P : Platform) where
  -- A call and the exit status where it fails.
  abbrev pub Plan : Type 0
  Plan = List (Call P × ℕ)

  -- the calls of a start that meets no error
  abbrev pub plan : Flags → Plan
  plan flags =
      (add_to_scheme "client-go", 2)
      ∷ (add_to_scheme "ansible-operator.lightjack.de/v1alpha1", 2)
      ∷ (get_config, 1)
      ∷ (new_manager (manager_options flags), 1)
      ∷ (complete (host_registration P), 1)
      ∷ (index_field (group_index ".spec.groups" groups_index), 1)
      ∷ (index_field (group_index ".spec.hosts" host_index), 1)
      ∷ (complete (group_registration P), 1)
      ∷ (complete (playbook_registration P), 1)
      ∷ (index_field (reconcile_job_index ".spec.playbookRef.name" playbook_index), 1)
      ∷ (complete (reconcile_job_registration P), 1)
      ∷ (add_healthz_check "healthz", 1)
      ∷ (add_readyz_check "readyz", 1)
      ∷ (start, 1)
      ∷ []

module _ {P : Platform} (M : Manager P) where
  -- A plan is followed from a state up to its first call that fails, to an exit status and a state.
  pub data Follows : Plan P → Startup M → ℕ → Startup M → Type 0 where
    finished : {s : Startup M} → Follows [] s 0 s
    succeeds :
        {call : Call P} {k : ℕ} {rest : Plan P} {s : Startup M} {status : ℕ} {t : Startup M}
        → (invoke M call s).0 ≡ ok tt
        → Follows rest (invoke M call s).1 status t
        → Follows ((call, k) ∷ rest) s status t
    fails :
        {call : Call P} {k : ℕ} {rest : Plan P} {s : Startup M} (e : Error)
        → (invoke M call s).0 ≡ err e
        → Follows ((call, k) ∷ rest) s k (invoke M call s).1
    panics :
        {call : Call P} {k : ℕ} {rest : Plan P} {s : Startup M}
        → (invoke M call s).0 ≡ panic
        → Follows ((call, k) ∷ rest) s 2 (invoke M call s).1

  record Does (plan : Plan P) (program : Program M) : Type 0 where
    follows : (s : Startup M) → Follows plan s (program s).0 (program s).1

  Does-finish : Does [] (finish M)
  Does-finish = record { follows = λ s. finished }

  Follows-leave :
      (call : Call P) (k : ℕ) (rest : Plan P) (program : Program M) (s : Startup M)
      (r : Result (Unit {0}))
      → Does rest program
      → (invoke M call s).0 ≡ r
      → Follows
          ((call, k) ∷ rest)
          s
          (leave M k r program (invoke M call s).1).0
          (leave M k r program (invoke M call s).1).1
  Follows-leave call k rest program s (ok u) d e = succeeds e (d.follows (invoke M call s).1)
  Follows-leave call k rest program s (err f) d e = fails f e
  Follows-leave call k rest program s panic d e = panics e

  Does-exiting :
      (call : Call P) (k : ℕ) (rest : Plan P) (program : Program M)
      → Does rest program
      → Does ((call, k) ∷ rest) (exiting M k (invoke M call) program)
  Does-exiting call k rest program d = record {
    follows = λ s. Follows-leave call k rest program s (invoke M call s).0 d refl;
  }

  leave-continue :
      (k : ℕ) (n : Unit {0} → Exec (Startup M) (Unit {0})) (program : Program M)
      (r : Result (Unit {0})) (t : Startup M)
      → leave M k r (exiting M k (n tt) program) t ≡ exiting M k (λ u. continue r n u) program t
  leave-continue k n program (ok u) t = refl
  leave-continue k n program (err e) t = refl
  leave-continue k n program panic t = refl

  -- A sequence of calls under one check of the error.
  Does-then :
      (call : Call P) (k : ℕ) (rest : Plan P) (n : Unit {0} → Exec (Startup M) (Unit {0}))
      (program : Program M)
      → Does rest (exiting M k (n tt) program)
      → Does ((call, k) ∷ rest) (exiting M k (invoke M call >>= n) program)
  Does-then call k rest n program d = record {
    follows = λ s.
        subst (λ (x : ℕ × Startup M). Follows ((call, k) ∷ rest) s x.0 x.1)
          (leave-continue k n program (invoke M call s).0 (invoke M call s).1)
          (Follows-leave call k rest _ s (invoke M call s).0 d refl);
  }

  Does-run : (flags : Flags) → Does (plan P flags) (run M flags)
  unfolding run main setup_controllers setup_hosts setup_groups setup_playbooks setup_reconcile_jobs
  Does-run flags = search (Does-exiting, Does-then, Does-finish) depth 30

  -- The program's start makes the calls of its plan in order up to the first one that fails, and ends
  -- with the exit status 0 if none does, with 2 if the call panics or registers a scheme, and with 1 if
  -- any other call returns an error. The plan has the two schemes, the configuration, the manager with the options that the flags
  -- give, the index functions and the controllers in the order host, group, playbook and reconcile job,
  -- the health checks and the manager's start.
  pub run-Follows :
      (flags : Flags) (s : Startup M) → Follows (plan P flags) s (run M flags s).0 (run M flags s).1
  run-Follows flags s = (Does-run flags).follows s
