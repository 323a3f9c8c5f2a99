-- ===== src/Controller/Workload/Gated.antt =====
-- accessSecurityContext and applyAccessDeployment of access_resources.go: the application behind the
-- access gate and OAuth2 Proxy.
use mathlib.Core.Option
use showroom_msp_chat_ui.Prelude.{ℕ, String, Bool, true, false, none, some, List, [], ◌∷◌, map}
use mathlib.Core.List.{◌++◌}
use showroom_msp_chat_ui.Controller.Pods.{
  Container, PodTemplate, Probe, HttpGet, Volume, Port, SecurityContext, VolumeMount, Deployment,
  EnvVar,
}
use showroom_msp_chat_ui.Controller.Access.{AccessBundle, oauth_arguments}
use showroom_msp_chat_ui.Controller.Objects.{number, Instance}
use showroom_msp_chat_ui.Controller.Workload.Probes.{chatui_http_probe}
use showroom_msp_chat_ui.Controller.Workload.Template.{managed_access_template}
use showroom_msp_chat_ui.Controller.Workload.Environment.{set}
use showroom_msp_chat_ui.Dictionary.{insert}
use showroom_msp_chat_ui.AccessGate.{email_header, role_header}
use showroom_msp_chat_ui.AccessPolicy.{oauth_image}

abbrev pub access_revision_annotation : String
access_revision_annotation = "ui.privatellms.msp/access-revision"

abbrev pub instance_uid_label : String
instance_uid_label = "ui.privatellms.msp/instance-uid"

unfoldable pub access_security_context : SecurityContext
access_security_context = record {
  allow_privilege_escalation = some false;
  run_as_non_root = some true;
  run_as_user = some 65532;
  run_as_group = none;
  read_only_root_filesystem = some true;
  drop = "ALL" ∷ [];
}

abbrev pub app_security_context : SecurityContext
app_security_context = record {
  allow_privilege_escalation = some false;
  run_as_non_root = some true;
  run_as_user = some 1000;
  run_as_group = some 1000;
  read_only_root_filesystem = none;
  drop = "ALL" ∷ [];
}

-- the variables that the application gets behind the gate
unfoldable pub gated_env : String → List EnvVar
gated_env public_url =
    set "HOST" "127.0.0.1"
    ∷ set "PORT" "8081"
    ∷ set "HOME" "/tmp"
    ∷ set "HF_HOME" "/tmp/huggingface"
    ∷ set "WEBUI_AUTH_TRUSTED_EMAIL_HEADER" email_header
    ∷ set "WEBUI_AUTH_TRUSTED_ROLE_HEADER" role_header
    ∷ set "CORS_ALLOW_ORIGIN" public_url
    ∷ set "DEFAULT_USER_ROLE" "user"
    ∷ set "WEBUI_AUTH_COOKIE_SECURE" "true"
    ∷ set "ENABLE_INITIAL_ADMIN_SIGNUP" "false"
    ∷ set "JWT_EXPIRES_IN" "1h"
    ∷ set "WEBUI_AUTH_SIGNOUT_REDIRECT_URL" "/oauth2/sign_out"
    ∷ []

abbrev pub exec_probe : Probe
exec_probe = record {
  http_get = none;
  exec = some (
      "python" ∷ "-c"
      ∷ "import urllib.request; urllib.request.urlopen('http://127.0.0.1:8081/health', timeout=2)"
      ∷ []);
  initial_delay_seconds = 0;
  period_seconds = 10;
  timeout_seconds = 3;
  success_threshold = 0;
  failure_threshold = 6;
}

abbrev pub slow_start : Probe → Probe
slow_start p = record p { period_seconds = 10; failure_threshold = 60 }

abbrev pub mount : String → String → Bool → VolumeMount
mount name path read_only = record { name = name; mount_path = path; read_only = read_only }

-- what applyAccessDeployment changes of the application's container
unfoldable pub gated_app : AccessBundle → Container → Container
unfolding gated_env
gated_app b app = record app {
  ports = [];
  security_context = some app_security_context;
  command =
      "python" ∷ "-m" ∷ "uvicorn" ∷ "chatui_guard:app" ∷ "--app-dir=/etc/chat-ui-guard"
      ∷ "--host=127.0.0.1" ∷ "--port=8081" ∷ "--workers=1" ∷ "--forwarded-allow-ips=127.0.0.1" ∷ [];
  args = [];
  volume_mounts =
      mount "webui-data" "/app/backend/data" false
      ∷ mount "webui-tmp" "/tmp" false
      ∷ mount "webui-guard" "/etc/chat-ui-guard" true
      ∷ [];
  env = app.env ++ gated_env b.public_url;
  readiness_probe = some exec_probe;
  liveness_probe = some exec_probe;
  startup_probe = some (record exec_probe { failure_threshold = 60 });
}

abbrev pub open_port : String → ℕ → Port
open_port name n = record { name = name; container_port = n; protocol = "" }

-- a probe of chatUIHTTPProbe with another path and port
abbrev pub probe_at : String → ℕ → Probe → Probe
probe_at path port p = record p {
  http_get =
      Option.map (λ (get : HttpGet). record get { path = path; port = number port }) p.http_get;
}

unfoldable pub gate_container : String → Container
unfolding access_security_context chatui_http_probe
gate_container proxy_image = record {
  name = "instance-access";
  image = proxy_image;
  command = "/access-proxy" ∷ [];
  args = "--config=/etc/chat-ui-access/gate.json" ∷ [];
  env = [];
  env_from = [];
  ports = open_port "access-health" 8083 ∷ [];
  resources = "";
  volume_mounts = mount "gate-config" "/etc/chat-ui-access" true ∷ [];
  readiness_probe = some (probe_at "/readyz" 8083 (chatui_http_probe 5 6));
  liveness_probe = some (probe_at "/readyz" 8083 (chatui_http_probe 10 6));
  startup_probe = some (slow_start (probe_at "/readyz" 8083 (chatui_http_probe 10 6)));
  security_context = some access_security_context;
  image_pull_policy = "";
  termination_message_path = "";
  termination_message_policy = "";
}

unfoldable pub oauth_container : String → Container
unfolding access_security_context chatui_http_probe oauth_arguments
oauth_container public_url = record {
  name = "oauth2-proxy";
  image = oauth_image;
  command = [];
  args = oauth_arguments public_url;
  env = [];
  env_from = [];
  ports = open_port "http" 8080 ∷ [];
  resources = "";
  volume_mounts = mount "oauth-config" "/etc/chat-ui-access" true ∷ [];
  readiness_probe = some (probe_at "/ping" 8080 (chatui_http_probe 5 6));
  liveness_probe = some (probe_at "/ping" 8080 (chatui_http_probe 10 6));
  startup_probe = none;
  security_context = some access_security_context;
  image_pull_policy = "";
  termination_message_path = "";
  termination_message_policy = "";
}

abbrev pub bundle_volume : String → AccessBundle → List String → Volume
bundle_volume name b keys = record {
  name = name;
  secret =
      some (record {
        secret_name = b.name;
        items = map (λ key. (key, key)) keys;
        default_mode = none;
      });
  projected = [];
  is_empty_dir = false;
  rest = "";
}

abbrev pub empty_volume : String → Volume
empty_volume name = record {
  name = name;
  secret = none;
  projected = [];
  is_empty_dir = true;
  rest = "";
}

unfoldable pub access_volumes : AccessBundle → List Volume
access_volumes b =
    bundle_volume "webui-guard" b ("chatui_guard.py" ∷ [])
    ∷ bundle_volume "gate-config" b ("gate.json" ∷ [])
    ∷ bundle_volume "oauth-config" b ("oauth.json" ∷ "client-secret" ∷ "cookie-secret" ∷ [])
    ∷ empty_volume "webui-data"
    ∷ empty_volume "webui-tmp"
    ∷ []

-- The containers: the source indexes the first one, which buildDeployment always makes.
abbrev pub access_containers : AccessBundle → String → List Container → List Container
access_containers b proxy_image [] = []
access_containers b proxy_image (app ∷ others) =
    gated_app b app ∷ (others ++ gate_container proxy_image ∷ oauth_container b.public_url ∷ [])

-- the template before its defaults are filled in
abbrev pub access_template : Instance → AccessBundle → String → PodTemplate → PodTemplate
access_template inst b proxy_image pod = record {
  labels = insert instance_uid_label inst.meta.uid pod.labels;
  annotations = insert access_revision_annotation b.revision pod.annotations;
  spec = record (pod.spec) {
    automount_service_account_token = some false;
    security_context = some (record { fs_group = some 1000; seccomp_profile = "RuntimeDefault" });
    containers = access_containers b proxy_image pod.spec.containers;
    volumes = access_volumes b;
  };
}

unfoldable pub apply_access_deployment : Deployment → Instance → AccessBundle → String → Deployment
unfolding managed_access_template gated_app gate_container oauth_container access_volumes insert
apply_access_deployment deploy inst b proxy_image =
    let pod = access_template inst b proxy_image deploy.template in
    record deploy { strategy = "Recreate"; template = managed_access_template pod pod }
