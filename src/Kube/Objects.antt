-- ===== src/Kube/Objects.antt =====
-- The Kubernetes objects that the controllers read and write, with the fields that they use. A
-- pointer field is an `Option`.
use ansible_operator.Base.{ℕ, String, Bool, Option, List}
use ansible_operator.Base.Maps.{Map, StringMap}
use ansible_operator.Api.{ObjectMeta}

-- `corev1.ConfigMap`
pub record ConfigMap : Type 0 where
  pub meta : ObjectMeta
  pub data_map : StringMap

-- `corev1.Secret`
pub record Secret : Type 0 where
  pub meta : ObjectMeta
  pub data_map : Map String

-- `batchv1.Job`; times are numbers that grow
pub record Job : Type 0 where
  pub meta : ObjectMeta
  pub start_time : Option ℕ
  pub active : ℕ
  pub succeeded : ℕ
  pub failed : ℕ

-- `corev1.KeyToPath`
pub record KeyToPath : Type 0 where
  pub key : String
  pub path : String
  pub mode : Option ℕ

-- `corev1.VolumeSource`: one of the three kinds in use.
pub data VolumeSource : Type 0 where
  -- the size limit
  empty_dir : String → VolumeSource
  -- name, items, optional
  config_map : String → List KeyToPath → Option Bool → VolumeSource
  -- secret name, items
  secret : String → List KeyToPath → VolumeSource

pub record Volume : Type 0 where
  pub name : String
  pub source : VolumeSource

pub record VolumeMount : Type 0 where
  pub name : String
  pub read_only : Bool
  pub mount_path : String
  pub sub_path : String

-- `corev1.EnvVar` with a `ConfigMapKeyRef`
pub record EnvVar : Type 0 where
  pub name : String
  pub config_map : String
  pub key : String
  pub is_optional : Option Bool

pub record SecurityContext : Type 0 where
  pub drop_capabilities : List String
  pub run_as_non_root : Option Bool
  pub allow_privilege_escalation : Option Bool
  pub seccomp_profile : String

pub record Container : Type 0 where
  pub name : String
  pub image : String
  pub security_context : SecurityContext
  pub env : List EnvVar
  pub volume_mounts : List VolumeMount

pub record PodSpec : Type 0 where
  pub run_as_non_root : Option Bool
  pub fs_group : Option ℕ
  pub restart_policy : String
  pub init_containers : List Container
  pub containers : List Container
  pub volumes : List Volume

-- `batchv1.CronJob`; the job template's metadata is its labels, the job's `BackoffLimit` stands
-- beside the pod.
pub record CronJob : Type 0 where
  pub meta : ObjectMeta
  pub schedule : String
  pub suspend : Option Bool
  pub concurrency_policy : String
  pub template_labels : Map String
  pub backoff_limit : Option ℕ
  pub pod : PodSpec
