-- ===== src/Tests/Provision.antt =====
-- What a reconcile of the job `nightly` provides for the runner.
use ansible_operator.Kube.{done}
use ansible_operator.Kube.Memory.{memory}
use ansible_operator.Kube.Memory.Lawful.{memory-StatusLaws, memory-ConfigMapLaws, memory-FrameLaws}
use ansible_operator.ReconcileJob.Reconcile.{reconcile_job}
use ansible_operator.ReconcileJob.Reconcile.Provided.{Provisioned}
use ansible_operator.ReconcileJob.Reconcile.Provision.{reconcile_job-Provisioned}
use ansible_operator.ReconcileJob.Reconcile.Quiet.{cron_requests}
use ansible_operator.ReconcileJob.Reconcile.Applied.{Applies, reconcile_job-Applies}
use ansible_operator.Tests.Data.{nightly}
use ansible_operator.Tests.Jobs.{start, returns_done}

reconcile_job-Provisioned_example : Provisioned memory nightly (reconcile_job memory start).1.server
reconcile_job-Provisioned_example =
    reconcile_job-Provisioned memory memory-ConfigMapLaws memory-FrameLaws memory-StatusLaws start
      done returns_done

reconcile_job-Applies_example :
    Applies memory nightly (cron_requests start.requests) (reconcile_job memory start).1
reconcile_job-Applies_example =
    reconcile_job-Applies memory memory-StatusLaws start done returns_done
