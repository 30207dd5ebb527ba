-- ===== src/PodBuilder/Core.antt =====
-- The part of Kubernetes' core/v1 that internal/podbuilder and internal/controller fill in or read.
use kontext.Prelude.{Bool, List, Option, Text, ℤ}
use kontext.Api.{Time, ObjectMeta, SecretKeySelector}
use kontext.PodStatus.{Pod as PodState}

-- corev1.EnvVar; the only source of a value is a key of a Secret.
pub record PodEnvVar : Type 0 where
  pub name : Text
  pub value : Text
  pub value_from : Option SecretKeySelector

pub record SeccompProfile : Type 0 where
  pub type : Text
  pub localhost_profile : Option Text

-- `capabilities` is the list that is dropped.
pub record SecurityContext : Type 0 where
  pub run_as_user : Option ℤ
  pub run_as_non_root : Option Bool
  pub allow_privilege_escalation : Option Bool
  pub read_only_root_filesystem : Option Bool
  pub capabilities : Option (List Text)
  pub seccomp_profile : Option SeccompProfile

pub record VolumeMount : Type 0 where
  pub name : Text
  pub mount_path : Text
  pub sub_path : Text
  pub read_only : Bool

pub data VolumeSource : Type 0 where
  config_map : Text → VolumeSource
  empty_dir : VolumeSource

pub record Volume : Type 0 where
  pub name : Text
  pub source : VolumeSource

-- corev1.ResourceRequirements; a quantity is the text that resource.MustParse reads.
pub record Resources : Type 0 where
  pub requests : List (Text × Text)
  pub limits : List (Text × Text)

pub record Container : Type 0 where
  pub name : Text
  pub image : Text
  pub image_pull_policy : Text
  pub command : List Text
  pub args : List Text
  pub env : List PodEnvVar
  pub volume_mounts : List VolumeMount
  pub security_context : Option SecurityContext
  pub resources : Resources

pub record PodSpec : Type 0 where
  pub restart_policy : Text
  pub init_containers : List Container
  pub containers : List Container
  pub volumes : List Volume
  pub service_account_name : Text

-- corev1.PodCondition.
pub record PodCondition : Type 0 where
  pub type : Text
  pub status : Text

pub record Pod : Type 0 where
  pub meta : ObjectMeta
  pub open meta use {name, namespace, uid}
  pub deletion_timestamp : Option Time
  pub spec : PodSpec
  pub status : PodState
  pub pod_ip : Text
  pub conditions : List PodCondition
