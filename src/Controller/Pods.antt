-- ===== src/Controller/Pods.antt =====
-- Pods, their containers and volumes, and Deployments, field by field as far as the reconciler looks
-- at them or sets them; `rest` stands for the fields that it only carries along.
use showroom_msp_chat_ui.Prelude.{ℕ, String, Bool, Option, List, ℕ_discrete}
use showroom_msp_chat_ui.Controller.Objects.{Target, Meta, String-discrete, ℤ}
use showroom_msp_chat_ui.Dictionary.{Map}

-- corev1.SecretKeySelector
pub record SecretKey : Type 0 where
  pub secret : String
  pub key : String
  pub optional : Option Bool

pub record EnvVar : Type 0 where
  pub name : String
  pub value : String
  pub from_secret : Option SecretKey

pub record Port : Type 0 where
  pub name : String
  pub container_port : ℕ
  pub protocol : String

pub record HttpGet : Type 0 where
  pub path : String
  pub port : Target
  pub scheme : String

pub record Probe : Type 0 where
  pub http_get : Option HttpGet
  pub exec : Option (List String)
  pub initial_delay_seconds : ℕ
  pub period_seconds : ℕ
  pub timeout_seconds : ℕ
  pub success_threshold : ℕ
  pub failure_threshold : ℕ

pub record SecurityContext : Type 0 where
  pub allow_privilege_escalation : Option Bool
  pub run_as_non_root : Option Bool
  pub run_as_user : Option ℕ
  pub run_as_group : Option ℕ
  pub read_only_root_filesystem : Option Bool
  pub drop : List String

pub record VolumeMount : Type 0 where
  pub name : String
  pub mount_path : String
  pub read_only : Bool

pub record Container : Type 0 where
  pub name : String
  pub image : String
  pub command : List String
  pub args : List String
  pub env : List EnvVar
  pub env_from : List String
  pub ports : List Port
  pub resources : String
  pub volume_mounts : List VolumeMount
  pub readiness_probe : Option Probe
  pub liveness_probe : Option Probe
  pub startup_probe : Option Probe
  pub security_context : Option SecurityContext
  pub image_pull_policy : String
  pub termination_message_path : String
  pub termination_message_policy : String

-- a Secret as a volume: its name, the keys with their paths, and the default mode
pub record SecretVolume : Type 0 where
  pub secret_name : String
  pub items : List (String × String)
  pub default_mode : Option ℕ

-- corev1.Volume; `projected` has the names of its sources' Secrets.
pub record Volume : Type 0 where
  pub name : String
  pub secret : Option SecretVolume
  pub projected : List String
  pub is_empty_dir : Bool
  pub rest : String

pub record PodSecurityContext : Type 0 where
  pub fs_group : Option ℕ
  pub seccomp_profile : String

pub record PodSpec : Type 0 where
  pub init_containers : List Container
  pub containers : List Container
  pub ephemeral_containers : List Container
  pub volumes : List Volume
  pub image_pull_secrets : List String
  pub automount_service_account_token : Option Bool
  pub security_context : Option PodSecurityContext
  pub host_network : Bool
  pub host_pid : Bool
  pub host_ipc : Bool
  pub share_process_namespace : Option Bool
  pub rest : String

pub record PodTemplate : Type 0 where
  pub labels : Map String
  pub annotations : Map String
  pub spec : PodSpec

pub record DeploymentStatus : Type 0 where
  pub observed_generation : ℕ
  pub replicas : ℕ
  pub updated_replicas : ℕ
  pub ready_replicas : ℕ
  pub available_replicas : ℕ

-- metav1.LabelSelectorRequirement and metav1.LabelSelector
pub record Requirement : Type 0 where
  pub key : String
  pub operator : String
  pub values : List String

pub record Selector : Type 0 where
  pub match_labels : Map String
  pub match_expressions : List Requirement

-- `selector` is `none` where it is nil.
pub record Deployment : Type 0 where
  pub meta : Meta
  pub replicas : Option ℤ
  pub selector : Option Selector
  pub strategy : String
  pub template : PodTemplate
  pub status : DeploymentStatus

unfoldable pub PodTemplate-discrete : Discrete PodTemplate
PodTemplate-discrete = hlevel (String-discrete, ℕ_discrete)
