-- ===== src/Tests/Watches.antt =====
-- The requests that changes of the objects in the namespace cause.
use ansible_operator.Base.{[], ◌∷◌, ◌≡◌, refl, keep, ◌==◌, string_dec, ok}
use ansible_operator.Api.{object_key}
use ansible_operator.Kube.Memory.{memory, Memory, within}
use ansible_operator.Kube.Memory.Lawful.{memory-IndexLaws}
use ansible_operator.Manager.{ansible_host, ansible_group, ansible_playbook, requests}
use ansible_operator.Group.Setup.{registration as group_registration}
use ansible_operator.Group.Watches.{group_keys}
use ansible_operator.Group.Watches.Laws.{refers, group_requests}
use ansible_operator.ReconcileJob.Setup.{registration as reconcile_job_registration}
use ansible_operator.ReconcileJob.Watches.{job_keys}
use ansible_operator.ReconcileJob.Watches.Laws.{reconcile_job_requests}
use ansible_operator.Tests.Data.{web, front, nightly, prod}

abbrev with_group : Memory
with_group = record prod { groups = front ∷ [] }

groups_listed : memory.list_groups "prod" with_group ≡ ok (front ∷ [])
unfolding within string_dec
groups_listed = refl

jobs_listed : memory.list_reconcile_jobs "prod" prod ≡ ok (nightly ∷ [])
unfolding within string_dec
jobs_listed = refl

group_requests_example :
    (requests memory (group_registration memory) ansible_host web.meta with_group
      ≡ group_keys (keep (λ g. refers "web" g.spec.hosts) (front ∷ [])))
    × (requests memory (group_registration memory) ansible_group web.meta with_group
        ≡ object_key web.meta ∷ group_keys (keep (λ g. refers "web" g.spec.groups) (front ∷ [])))
group_requests_example =
    group_requests memory memory-IndexLaws web.meta with_group (front ∷ []) groups_listed

reconcile_job_requests_example :
    (requests memory (reconcile_job_registration memory) ansible_host web.meta prod
      ≡ job_keys (nightly ∷ []))
    × (requests memory (reconcile_job_registration memory) ansible_group web.meta prod
        ≡ job_keys (nightly ∷ []))
    × (requests memory (reconcile_job_registration memory) ansible_playbook web.meta prod
        ≡ job_keys (keep (λ j. j.spec.playbook_ref.name == "web") (nightly ∷ [])))
reconcile_job_requests_example =
    reconcile_job_requests memory memory-IndexLaws web.meta prod (nightly ∷ []) jobs_listed
