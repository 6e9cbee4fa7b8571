-- ===== src/Kube/Calm.antt =====
-- A platform none of whose calls panics, and the actions that call it.
use ansible_operator.Base.{String}
use ansible_operator.Base.Calm.{NoPanic, Calm}
use ansible_operator.Api.{ObjectKey, ObjectMeta, AnsibleHost, AnsibleGroup, AnsibleReconcileJob}
use ansible_operator.Kube.Objects.{ConfigMap, Secret, CronJob}
use ansible_operator.Kube.Interface.{Platform}
use ansible_operator.Kube.Calls.{Request, read, send, this, assign_this}
use ansible_operator.Base.{Result}

pub record NeverPanics (P : Platform) : Type 0 where
  pub get_host : (k : ObjectKey) (s : P.State) → NoPanic (P.get_host k s)
  pub get_group : (k : ObjectKey) (s : P.State) → NoPanic (P.get_group k s)
  pub get_playbook : (k : ObjectKey) (s : P.State) → NoPanic (P.get_playbook k s)
  pub get_config_map : (k : ObjectKey) (s : P.State) → NoPanic (P.get_config_map k s)
  pub get_secret : (k : ObjectKey) (s : P.State) → NoPanic (P.get_secret k s)
  pub get_cron_job : (k : ObjectKey) (s : P.State) → NoPanic (P.get_cron_job k s)
  pub list_hosts : (n : String) (s : P.State) → NoPanic (P.list_hosts n s)
  pub list_groups : (n : String) (s : P.State) → NoPanic (P.list_groups n s)
  pub list_jobs : (n label value : String) (s : P.State) → NoPanic (P.list_jobs n label value s)
  pub create_config_map : (c : ConfigMap) (s : P.State) → NoPanic (P.create_config_map c s).0
  pub update_config_map : (c : ConfigMap) (s : P.State) → NoPanic (P.update_config_map c s).0
  pub create_secret : (c : Secret) (s : P.State) → NoPanic (P.create_secret c s).0
  pub update_cron_job : (c : CronJob) (s : P.State) → NoPanic (P.update_cron_job c s).0
  pub apply_cron_job : (c : CronJob) (s : P.State) → NoPanic (P.apply_cron_job c s).0
  pub update_host_status : (h : AnsibleHost) (s : P.State) → NoPanic (P.update_host_status h s).0
  pub update_group_status : (g : AnsibleGroup) (s : P.State) → NoPanic (P.update_group_status g s).0
  pub update_reconcile_job_status :
      (j : AnsibleReconcileJob) (s : P.State) → NoPanic (P.update_reconcile_job_status j s).0
  pub to_unstructured : (c : CronJob) → NoPanic (P.to_unstructured c)
  pub set_controller_reference :
      (kind : String) (owner object : ObjectMeta)
      → NoPanic (P.set_controller_reference kind owner object)

module _ {P : Platform} {T A : Type 0} where
  pub Calm-read :
      (f : P.State → Result A) → ((s : P.State) → NoPanic (f s)) → Calm (read {P = P} {T = T} f)
  Calm-read f c = record { at = λ s. c s.server }

  pub Calm-send :
      (request : Request) (f : P.State → Result A × P.State)
      → ((s : P.State) → NoPanic (f s).0)
      → Calm (send {P = P} {T = T} request f)
  Calm-send request f c = record { at = λ s. c s.server }

module _ {P : Platform} {T : Type 0} where
  pub Calm-this : Calm (this {P = P} {T = T})
  Calm-this = record { at = λ s. tt }

  pub Calm-assign_this : (x : T) → Calm (assign_this {P = P} x)
  Calm-assign_this x = record { at = λ s. tt }

pub ruleset call_rules = (Calm-read, Calm-send, Calm-this, Calm-assign_this)
