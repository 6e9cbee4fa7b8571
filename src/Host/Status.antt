-- ===== src/Host/Status.antt =====
-- `setStatusReady` and `setStatusNotReady`.
use ansible_operator.Base.{String, Exec, pure, with_error, wrap, ◌>>=◌, ◌>>◌, if◌then◌else◌}
use ansible_operator.Api.{AnsibleHost, Condition, condition_true, condition_false}
use ansible_operator.Kube.{Platform, Session, update_host_status, send, this, assign_this}

module _ (P : Platform) where
  unfoldable pub push_status : AnsibleHost → Exec (Session P AnsibleHost) (Unit {0})
  push_status host = do
    host' ←
        with_error (wrap "failed to update AnsibleHost status")
          (send (update_host_status host) (P.update_host_status host))
    assign_this host'

  -- the body that the two functions share
  unfoldable pub put_ready : Condition → Exec (Session P AnsibleHost) (Unit {0})
  unfolding push_status
  put_ready condition = do
    host ← this
    let (conditions, changed) = P.set_status_condition host.conditions condition
    let updated : AnsibleHost = record host { conditions = conditions }
    assign_this updated
    if changed then push_status updated else pure tt

  unfoldable pub set_status_ready : Exec (Session P AnsibleHost) (Unit {0})
  unfolding put_ready
  set_status_ready = put_ready (record {
    type = "Ready";
    status = condition_true;
    reason = "HostReady";
    message = "The AnsibleHost is ready to be used";
  })

  unfoldable pub set_status_not_ready : String → String → Exec (Session P AnsibleHost) (Unit {0})
  unfolding put_ready
  set_status_not_ready reason message =
      put_ready
        (record { type = "Ready"; status = condition_false; reason = reason; message = message })
