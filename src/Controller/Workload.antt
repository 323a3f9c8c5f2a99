-- ===== src/Controller/Workload.antt =====
-- buildDeployment of chatuiinstance_controller.go: the Deployment before the access containers.
pub mod Environment
pub mod Probes
pub mod Template
pub mod Gated
pub mod Rollout
pub mod Hardening
pub mod Settling
pub mod Samples
mod Examples
use showroom_msp_chat_ui.Prelude.{ℕ, String, false, none, some, List, [], ◌∷◌}
use showroom_msp_chat_ui.Controller.Pods.{Container, PodSpec, DeploymentStatus, Deployment}
use showroom_msp_chat_ui.Controller.Workload.Environment.{app_env}
use showroom_msp_chat_ui.Controller.Setup.{Kit, chatui_name}
use showroom_msp_chat_ui.Controller.Workload.Probes.{chatui_http_probe, late_probe}
use showroom_msp_chat_ui.Controller.Effects.{Api}
use showroom_msp_chat_ui.Controller.Objects.{Instance, pos}
use showroom_msp_chat_ui.Dictionary.{Map}
use showroom_msp_chat_ui.Controller.Sessions.{new_meta, session_secret_name}

abbrev pub secret_checksum_annotation : String
secret_checksum_annotation = "ui.privatellms.msp/secret-checksum"

-- The application's container as buildDeployment makes it.
abbrev pub app_container : String → String → String → Container
app_container session secret image = record {
  name = "open-webui";
  image = image;
  command = [];
  args = [];
  env = app_env session secret;
  env_from = [];
  ports = record { name = ""; container_port = 8080; protocol = "TCP" } ∷ [];
  resources = "";
  volume_mounts = [];
  readiness_probe = some (chatui_http_probe 5 6);
  liveness_probe = some late_probe;
  startup_probe = some (chatui_http_probe 10 60);
  security_context = none;
  image_pull_policy = "";
  termination_message_path = "";
  termination_message_policy = "";
}

abbrev pub pod_spec : List Container → PodSpec
pod_spec containers = record {
  init_containers = [];
  containers = containers;
  ephemeral_containers = [];
  volumes = [];
  image_pull_secrets = [];
  automount_service_account_token = none;
  security_context = none;
  host_network = false;
  host_pid = false;
  host_ipc = false;
  share_process_namespace = none;
  rest = "";
}

-- the status of a Deployment that was not yet sent
abbrev pub no_status : DeploymentStatus
no_status = record {
  observed_generation = 0;
  replicas = 0;
  updated_replicas = 0;
  ready_replicas = 0;
  available_replicas = 0;
}

module _ (k : Kit) (api : Api) where
  unfoldable pub build_deployment : Instance → Map String → ℕ → String → String → Deployment
  build_deployment inst labels replicas image checksum = record {
    meta = record (new_meta k api inst (chatui_name inst)) { labels = labels };
    replicas = some (pos replicas);
    selector = some (record { match_labels = labels; match_expressions = [] });
    strategy = "";
    template = record {
      labels = labels;
      annotations = (secret_checksum_annotation, checksum) ∷ [];
      spec =
          pod_spec (
            app_container (session_secret_name k api inst) inst.spec.credentials_secret image ∷ []);
    };
    status = no_status;
  }
