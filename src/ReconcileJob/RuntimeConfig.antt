-- ===== src/ReconcileJob/RuntimeConfig.antt =====
-- `ensureRuntimeConfigMap`: the playbook, inline or in git, as a config map for the runner.
use ansible_operator.Base.{
  String, ◌<>◌, none, some, [], ◌∷◌, Result, ok, err, errorf, wrap, Exec, lift, with_error, ◌>>=◌,
}
use ansible_operator.Base.Maps.{Map}
use ansible_operator.Api.{AnsiblePlaybook, AnsibleReconcileJob}
use ansible_operator.Kube.{Platform, Session, read}
use ansible_operator.ReconcileJob.ConfigMaps.{ensure_configmap_with_data}

abbrev pub job_config_name_suffix : String
job_config_name_suffix = "-job-config"

-- Inline wins if both are set, which the API's validation rules out.
unfoldable pub runtime_config : AnsiblePlaybook → Result (Map String)
runtime_config playbook = elim playbook.spec.inline [
  | some inline ↦
      ok (("playbook.yml", inline.playbook) ∷ ("requirements.yml", inline.requirements) ∷ [])
  | none ↦ elim playbook.spec.git [
    | some git ↦ ok (
        ("OPERATOR_GIT_REPO_URL", git.repo.url)
        ∷ ("OPERATOR_GIT_REF", git.repo.ref)
        ∷ ("OPERATOR_GIT_PLAYBOOK_PATH", git.playbook_path)
        ∷ ("OPERATOR_GIT_REQUIREMENTS_PATH", git.requirements_path)
        ∷ [])
    | none ↦ err (
        errorf
          "error creating runtime configmap: neither git nor inline are non-nil. (API Spec violation?!)")
  ]
]

unfoldable pub ensure_runtime_config_map :
    (P : Platform) {T : Type 0} → AnsibleReconcileJob → Exec (Session P T) (Unit {0})
ensure_runtime_config_map P job = do
  playbook ← with_error (wrap "unable to fetch matching playbook") (
      read (
        P.get_playbook
          (record { namespace = job.meta.namespace; name = job.spec.playbook_ref.name })))
  cm_data ← lift (runtime_config playbook)
  with_error (wrap ("error ensuring configmap " <> (job.meta.name <> job_config_name_suffix)))
      (ensure_configmap_with_data P (job.meta.name <> job_config_name_suffix) cm_data job.meta)
