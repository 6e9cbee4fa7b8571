-- ===== src/ReconcileJob/Reconcile/Failure.antt =====
-- What a reconcile does where one of its steps fails.
use ansible_operator.Base.{
  String, ◌≡◌, refl, true, some, List, [], ◌∷◌, arith, Error, Result, ok, err, panic, OnOk, wrap,
  succeeded, Result-cases, is_ok, is_err, is_panic, Exec, trying, branch, pure,
}
use mathlib.Core.Path.{subst}
use ansible_operator.Base.Post.{Keeps}
use ansible_operator.Api.{ObjectKey, AnsibleReconcileJob, condition_true, object_key}
use ansible_operator.Kube.{
  Platform, Session, CronJob, ReconcileResult, done, Request, create_config_map, update_config_map,
  create_secret, update_cron_job, apply_cron_job, update_host_status, update_group_status,
  update_reconcile_job_status,
}
use ansible_operator.Kube.Laws.{CronJobLaws}
use ansible_operator.ReconcileJob.Status.{
  push_status, set_condition, default_all_statuses_to_unknown,
}
use ansible_operator.ReconcileJob.Progress.{update_status_conditions}
use ansible_operator.ReconcileJob.Inventory.Ensure.{ensure_inventory_configmap}
use ansible_operator.ReconcileJob.RuntimeConfig.{ensure_runtime_config_map}
use ansible_operator.ReconcileJob.KnownHosts.{ensure_known_hosts_secret_exists}
use ansible_operator.ReconcileJob.CronJobs.Ensure.{ensure_cronjob_with_mounts}
use ansible_operator.ReconcileJob.Reconcile.{
  step, with_job, suspend_cronjob, report_cause, handle_reconcile_error, at_err, conclude,
  reconcile_job, ensure_all,
}

-- The updates of cron jobs that are sent, whatever the server answers.
abbrev pub updates_sent : List Request → List CronJob
updates_sent [] = []
updates_sent (update_cron_job x ∷ rs) = x ∷ updates_sent rs
updates_sent (create_secret x ∷ rs) = updates_sent rs
updates_sent (create_config_map x ∷ rs) = updates_sent rs
updates_sent (update_config_map x ∷ rs) = updates_sent rs
updates_sent (apply_cron_job x ∷ rs) = updates_sent rs
updates_sent (update_host_status x ∷ rs) = updates_sent rs
updates_sent (update_group_status x ∷ rs) = updates_sent rs
updates_sent (update_reconcile_job_status x ∷ rs) = updates_sent rs

module _ (P : Platform) (laws : CronJobLaws P) where
  abbrev JobSession : Type 0
  JobSession = Session P AnsibleReconcileJob

  abbrev pub suspended : CronJob → CronJob
  suspended cronjob = record cronjob { suspend = some true }

  abbrev Updated : List CronJob → JobSession → Type 0
  Updated cronjobs s = updates_sent s.requests ≡ cronjobs

  report_cause-Updated :
      (cronjobs : List CronJob) (cause : Error) → Keeps (Updated cronjobs) (report_cause P cause)
  unfolding report_cause set_condition push_status
  report_cause-Updated cronjobs cause = record { at = λ s h. ground arith }

  suspend_cronjob-updated :
      (job : AnsibleReconcileJob) (s : JobSession) (cronjob : CronJob)
      → P.get_cron_job (object_key job.meta) s.server ≡ ok cronjob
      → updates_sent (suspend_cronjob P job s).1.requests
        ≡ suspended cronjob ∷ updates_sent s.requests
  unfolding suspend_cronjob
  suspend_cronjob-updated job s cronjob found = ground arith

  abbrev Fetched : ObjectKey → Result CronJob → JobSession → Type 0
  Fetched key answer s = P.get_cron_job key s.server ≡ answer

  report_cause-Fetched :
      (key : ObjectKey) (answer : Result CronJob) (cause : Error)
      → Keeps (Fetched key answer) (report_cause P cause)
  unfolding report_cause set_condition push_status
  report_cause-Fetched key answer cause = record {
    at = λ s h. grind (arith, laws.get-reconcile_job_status);
  }

  suspend_cronjob-Fetched :
      (job : AnsibleReconcileJob) (s : JobSession) (cronjob : CronJob)
      → P.get_cron_job (object_key job.meta) s.server ≡ ok cronjob
      → succeeded (P.update_cron_job (suspended cronjob) s.server).0 ≡ true
      → Fetched (object_key job.meta) (ok (suspended cronjob)) (suspend_cronjob P job s).1
  unfolding suspend_cronjob
  suspend_cronjob-Fetched job s cronjob found accepted =
      let key : object_key cronjob.meta ≡ object_key job.meta =
        subst (λ r. OnOk (λ (c : CronJob). object_key c.meta ≡ object_key job.meta) r) found
          (laws.key-get (object_key job.meta) s.server) in
      let stored = laws.get-update (suspended cronjob) s.server accepted in
      ground (
        arith,
        found,
        subst
            (λ k.
              P.get_cron_job k (P.update_cron_job (suspended cronjob) s.server).1
              ≡ ok (suspended cronjob))
            key stored,
      )

  -- The one update of a cron job that the action has sent after the session `t` asks for this cron job
  -- to be suspended and otherwise unchanged; and where the server accepts it, it has the cron job so
  -- in the end.
  abbrev Suspends : JobSession → Result ReconcileResult × JobSession → CronJob → Type 0
  Suspends t x cronjob =
      (updates_sent x.1.requests ≡ suspended cronjob ∷ updates_sent t.requests)
      × (succeeded (P.update_cron_job (suspended cronjob) t.server).0 ≡ true
          → P.get_cron_job (object_key t.object.meta) x.1.server ≡ ok (suspended cronjob))

  at_err-Suspends :
      (cause : Error) (s : JobSession) (cronjob : CronJob)
      → P.get_cron_job (object_key s.object.meta) s.server ≡ ok cronjob
      → Suspends s (at_err P cause s) cronjob
  unfolding at_err handle_reconcile_error
  at_err-Suspends cause s cronjob found =
      let t = (suspend_cronjob P s.object s).1 in
      (
        ground (
          arith,
          suspend_cronjob-updated s.object s cronjob found,
          (report_cause-Updated (updates_sent t.requests) cause).at t refl,
        ),
        λ accepted. ground (
          arith,
          (report_cause-Fetched (object_key s.object.meta) (ok (suspended cronjob)) cause).at t
              (suspend_cronjob-Fetched s.object s cronjob found accepted),
        ),
      )

  -- What a reconcile that returned the error `e` has done: in some session `t` it entered the
  -- handler with a cause, which `e` wraps, and if the server of `t` has the cron job of the reconcile
  -- job, that one has been dealt with.
  abbrev pub Handled : Result ReconcileResult × JobSession → Error → Type 0
  Handled x e =
      (t : JobSession) × (cause : Error) × (x ≡ at_err P cause t)
      × (e ≡ wrap "error encountered during reconcile" cause)
      × OnOk (Suspends t x) (P.get_cron_job (object_key t.object.meta) t.server)

  at_err-OnOk :
      (cause : Error) (t : JobSession)
      → OnOk (Suspends t (at_err P cause t)) (P.get_cron_job (object_key t.object.meta) t.server)
  at_err-OnOk cause t = elim (Result-cases (P.get_cron_job (object_key t.object.meta) t.server)) [
    | is_ok cronjob found ↦ rw found (at_err-Suspends cause t cronjob found)
    | is_err e found ↦ rw found tt
    | is_panic found ↦ rw found tt
  ]

  handler-swallows :
      (cause : Error) (t : JobSession) (e : Error)
      → (handle_reconcile_error P cause t).0 ≡ err e
      → ⊥
  unfolding handle_reconcile_error suspend_cronjob report_cause
  handler-swallows cause t e h = ground arith

  at_err-wraps :
      (cause : Error) (t : JobSession) (e : Error)
      → (at_err P cause t).0 ≡ err e
      → e ≡ wrap "error encountered during reconcile" cause
  unfolding at_err
  at_err-wraps cause t e h = elim (Result-cases (handle_reconcile_error P cause t).0) [
    | is_ok a returned ↦ ground (arith, returned)
    | is_err f failed ↦ absurd (handler-swallows cause t f failed)
    | is_panic broken ↦ ground (arith, broken)
  ]

  -- Whatever error `m` returns has been handled.
  record Handles (m : Exec JobSession ReconcileResult) : Type 0 where
    at : (s : JobSession) (e : Error) → (m s).0 ≡ err e → Handled (m s) e

  at_err-Handles : (cause : Error) → Handles (at_err P cause)
  at_err-Handles cause = record {
    at = λ t e h. (t, cause, refl, at_err-wraps cause t e h, at_err-OnOk cause t);
  }

  pure-Handles : (r : ReconcileResult) → Handles (pure r)
  pure-Handles r = record { at = λ s e h. cc }

  branch-Handles :
      (r : Result (Unit {0})) (handler : Error → Exec JobSession ReconcileResult)
      (rest : (Unit {0}) → Exec JobSession ReconcileResult)
      → ((e : Error) → Handles (handler e))
      → ((a : Unit {0}) → Handles (rest a))
      → Handles (branch r handler rest)
  branch-Handles (ok a) handler rest h k = k a
  branch-Handles (err e) handler rest h k = h e
  branch-Handles panic handler rest h k = record { at = λ s e p. cc }

  trying-Handles :
      (m : Exec JobSession (Unit {0})) (handler : Error → Exec JobSession ReconcileResult)
      (rest : (Unit {0}) → Exec JobSession ReconcileResult)
      → ((e : Error) → Handles (handler e))
      → ((a : Unit {0}) → Handles (rest a))
      → Handles (trying m handler rest)
  trying-Handles m handler rest h k = record {
    at = λ s. (branch-Handles (m s).0 handler rest h k).at (m s).1;
  }

  step-Handles :
      (text : String) (m : Exec JobSession (Unit {0})) (rest : Exec JobSession ReconcileResult)
      → Handles rest
      → Handles (step P text m rest)
  step-Handles text m rest k = trying-Handles m _ _ (λ e. at_err-Handles _) (λ _. k)

  conclude-Handles : Handles (conclude P)
  unfolding conclude
  conclude-Handles =
      step-Handles "failed to update status conditions" (update_status_conditions P) _ (
        step-Handles "failed to update condition to ready on reconcileJob"
          (set_condition P "Ready" condition_true "ReconcileSuccess"
            "Resource reconciled successfully")
          _ (pure-Handles done))

  ensure_all-Handles : Handles (ensure_all P)
  unfolding ensure_all
  ensure_all-Handles =
      step-Handles "failed to ensure inventory configmap"
        (with_job P (ensure_inventory_configmap P)) _
        (step-Handles "failed to ensure known hosts configmap"
          (with_job P (ensure_known_hosts_secret_exists P)) _
          (step-Handles "failed to ensure runtime configmap"
            (with_job P (ensure_runtime_config_map P)) _
            (step-Handles "failed to ensure cronjob exists"
              (with_job P (ensure_cronjob_with_mounts P)) _ conclude-Handles)))

  reconcile_job-Handles : Handles (reconcile_job P)
  unfolding reconcile_job
  reconcile_job-Handles =
      step-Handles "unable to set statuses to initial values" (default_all_statuses_to_unknown P) _
        ensure_all-Handles

  -- Under the laws of cron jobs: if the reconcile of a job returns an error, it has entered the
  -- handler in some session `t` with a cause that the error wraps, and has returned what the handler
  -- left. If the server then had the cron job of the reconcile job, the one update of a cron job that
  -- has been sent from there on is of this one, and asks for it to be suspended and otherwise unchanged;
  -- and where the server accepts that update, it has the cron job suspended when the reconcile
  -- returns. Where it refuses, the handler goes on as if it had not.
  pub reconcile_job-Handled :
      (s : JobSession) (e : Error) → (reconcile_job P s).0 ≡ err e → Handled (reconcile_job P s) e
  reconcile_job-Handled = reconcile_job-Handles.at
