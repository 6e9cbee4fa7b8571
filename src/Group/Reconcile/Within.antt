-- ===== src/Group/Reconcile/Within.antt =====
-- How many requests a reconcile of a group sends.
use ansible_operator.Base.{
  ℕ, ◌+◌, ◌≤◌, String, ◌<>◌, wrap_text, arith, Result, ok, err, panic, Exec, handle_result,
  continue, handling, ◌>>=◌,
}
use ansible_operator.Api.{AnsibleGroup, ConditionStatus, condition_false}
use ansible_operator.Kube.{Platform, Session, ReconcileResult, done, read}
use ansible_operator.Kube.Within.{
  Within, Within-pure, Within-read, Within-with_error, Within-if, Within-bind,
}
use ansible_operator.VarsConfigMap.Within.{ensure_vars-Within}
use ansible_operator.Group.Status.{push_status, set_condition, default_status_to_unknown}
use ansible_operator.Group.Health.{GroupHealthcheckResult, check_group_health}
use ansible_operator.Group.Reconcile.{
  put_condition, report_references, report_health, report, reconcile_group, check_and_report,
  default_conditions, give_up, ensure_vars_config_map,
}

module _ (P : Platform) where
  set_condition-Within :
      (type : String) (status : ConditionStatus) (reason message : String)
      → Within 1 (set_condition P type status reason message)
  unfolding set_condition push_status
  set_condition-Within type status reason message = record { at = λ s. ground arith }

  default_status_to_unknown-Within : (type : String) → Within 1 (default_status_to_unknown P type)
  unfolding default_status_to_unknown set_condition push_status
  default_status_to_unknown-Within type = record { at = λ s. ground arith }

  put_condition-Within :
      (type : String) (status : ConditionStatus) (reason message : String)
      → Within 1 (put_condition P type status reason message)
  unfolding put_condition
  put_condition-Within type status reason message =
      Within-with_error 1 _ _ (set_condition-Within type status reason message)

  module _ {A : Type 0} (n : ℕ) (text : String)
      (f : A → Exec (Session P AnsibleGroup) ReconcileResult) where
    -- Once the group has given up, nothing follows.
    continue-handled :
        (r : Result A)
        → 1 ≤ n
        → ((a : A) → Within n (f a))
        → Within n (λ s.
          continue (handle_result r (give_up P text) s).0 f (handle_result r (give_up P text) s).1)
    unfolding give_up
    continue-handled (ok a) le w = record { at = (w a).at }
    continue-handled (err e) le w = record {
      at = λ s.
          ground (
            arith,
            (put_condition-Within "Ready" condition_false "Error" (text <> e.message)).at s,
          );
    }
    continue-handled panic le w = record { at = λ s. omega arith }

    handling-give_up :
        (k : ℕ) (m : Exec (Session P AnsibleGroup) A)
        → Within k m
        → 1 ≤ n
        → ((a : A) → Within n (f a))
        → Within (k + n) (handling m (give_up P text) >>= f)
    handling-give_up k m v le w = record {
      at = λ s. omega (arith, v.at s, (continue-handled (m s).0 le w).at (m s).1);
    }

  report-Within : (h : GroupHealthcheckResult) → Within 3 (report P h)
  unfolding report report_references report_health
  report-Within h =
      let put = put_condition-Within in
      Within-if 3 _ _ _
        (Within-bind 1 2 _ _ (put _ _ _ _) (λ _.
          Within-bind 1 1 _ _ (put _ _ _ _)
            (λ _. Within-bind 1 0 _ _ (put _ _ _ _) (λ _. Within-pure done))))
        (Within-bind 1 2 _ _ (Within-if 1 _ _ _ (put _ _ _ _) (put _ _ _ _)) (λ _.
          Within-bind 1 1 _ _ (Within-if 1 _ _ _ (put _ _ _ _) (put _ _ _ _))
            (λ _. Within-bind 1 0 _ _ (put _ _ _ _) (λ _. Within-pure done))))

  check_and_report-Within : (group : AnsibleGroup) → Within 3 (check_and_report P group)
  unfolding check_and_report
  check_and_report-Within group =
      handling-give_up 3 _ (report P) 0 (read (check_group_health P group)) (Within-read _)
        (omega arith) report-Within

  default_conditions-Within : Within 3 (default_conditions P)
  unfolding default_conditions
  default_conditions-Within =
      let default = λ (type : String).
        Within-with_error 1 (wrap_text "failed to set condition on AnsibleGroup") _
          (default_status_to_unknown-Within type) in
      Within-bind 1 2 _ _ (default "Healthy")
        (λ _. Within-bind 1 1 _ _ (default "ReferencesValid") (λ _. default "Ready"))

  -- However it ends, the reconcile of a group sends at most eight write requests.
  pub reconcile_group-Within : Within 8 (reconcile_group P)
  unfolding reconcile_group ensure_vars_config_map
  reconcile_group-Within = Within-bind 3 5 _ _ default_conditions-Within (λ _.
      handling-give_up 3 _ _ 2 (ensure_vars_config_map P)
        (record {
          at = λ s.
              (ensure_vars-Within P "AnsibleGroup" s.object.meta s.object.spec.group_vars).at s;
        })
        (omega arith) (λ _. record { at = λ s. (check_and_report-Within s.object).at s }))
