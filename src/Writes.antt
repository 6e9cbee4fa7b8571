-- ===== src/Writes.antt =====
-- How much a reconcile of any of the controllers writes.
use ansible_operator.Base.{String, Result, Result-cases, is_ok, is_err, is_panic, arith}
use ansible_operator.Api.{ObjectKey}
use ansible_operator.Kube.{Platform}
use ansible_operator.Kube.Within.{Within}
use ansible_operator.Ssh.Keyscan.{Network, Arrival}
use ansible_operator.Group.Reconcile as Group
use ansible_operator.Group.Reconcile.Within.{reconcile_group-Within}
use ansible_operator.Host.Reconcile as Host
use ansible_operator.Host.Reconcile.Within.{reconcile_host-Within}
use ansible_operator.ReconcileJob.Reconcile as ReconcileJob
use ansible_operator.ReconcileJob.Reconcile.Within.{reconcile_job-Within}

module _ (P : Platform) (key : ObjectKey) where
  group-Within : Within 8 (Group.reconcile P key)
  unfolding Group.reconcile
  group-Within = record {
    at = λ s. elim (Result-cases (P.get_group key s.server)) [
      | is_ok group got ↦
          ground (arith, got, (reconcile_group-Within P).at (record s { object = group }))
      | is_err e got ↦ ground (arith, got)
      | is_panic got ↦ ground (arith, got)
    ];
  }

  job-Within : Within 12 (ReconcileJob.reconcile P key)
  unfolding ReconcileJob.reconcile
  job-Within = record {
    at = λ s. elim (Result-cases (P.get_reconcile_job key s.server)) [
      | is_ok job got ↦ ground (arith, got, (reconcile_job-Within P).at (record s { object = job }))
      | is_err e got ↦ ground (arith, got)
      | is_panic got ↦ ground (arith, got)
    ];
  }

  module _ (N : Network) (arrival : Arrival N)
      (parse_private_key : String → Result (Unit {0})) where
    host-Within : Within 4 (Host.reconcile P N arrival parse_private_key key)
    unfolding Host.reconcile
    host-Within = record {
      at = λ s. elim (Result-cases (P.get_host key s.server)) [
        | is_ok host got ↦ ground (
          arith,
          got,
          (reconcile_host-Within P N arrival parse_private_key host).at
              (record s { object = host }),
        )
        | is_err e got ↦ ground (arith, got)
        | is_panic got ↦ ground (arith, got)
      ];
    }

    -- However it ends, whatever the server answers: a reconcile of a group sends at most eight write
    -- requests, one of a host at most four, and one of a job, its error handler included, at most twelve.
    pub reconcile-Within :
        Within 8 (Group.reconcile P key)
        × Within 4 (Host.reconcile P N arrival parse_private_key key)
        × Within 12 (ReconcileJob.reconcile P key)
    reconcile-Within = (group-Within, host-Within, job-Within)
