-- ===== src/Kube/Calls.antt =====
-- A reconcile in progress: the API server, the write requests sent to it, and the object that is
-- reconciled, which status updates mutate.
use ansible_operator.Base.{ℕ, List, ◌∷◌, Result, ok, Exec}
use ansible_operator.Api.{AnsibleHost, AnsibleGroup, AnsibleReconcileJob}
use ansible_operator.Kube.Objects.{ConfigMap, Secret, CronJob}
use ansible_operator.Kube.Interface.{Platform}

-- `ctrl.Result`: the seconds after which to reconcile again, or 0
pub record ReconcileResult : Type 0 where
  pub requeue_after : ℕ

abbrev pub done : ReconcileResult
done = record { requeue_after = 0 }

pub data Request : Type 0 where
  create_config_map update_config_map : ConfigMap → Request
  create_secret : Secret → Request
  update_cron_job apply_cron_job : CronJob → Request
  update_host_status : AnsibleHost → Request
  update_group_status : AnsibleGroup → Request
  update_reconcile_job_status : AnsibleReconcileJob → Request

pub record Session (P : Platform) (T : Type 0) : Type 0 where
  pub server : P.State
  -- the latest request first
  pub requests : List Request
  pub object : T

module _ {P : Platform} {T A : Type 0} where
  -- a `Get` or a `List`
  abbrev pub read : (P.State → Result A) → Exec (Session P T) A
  read f s = (f s.server, s)

  -- a write, which is sent whatever the server answers
  abbrev pub send : Request → (P.State → Result A × P.State) → Exec (Session P T) A
  send request f s =
      let (r, server) = f s.server in
      (r, record s { server = server; requests = request ∷ s.requests })

module _ {P : Platform} {T : Type 0} where
  abbrev pub this : Exec (Session P T) T
  this s = (ok s.object, s)

  abbrev pub assign_this : T → Exec (Session P T) (Unit {0})
  assign_this x s = (ok tt, record s { object = x })
