-- ===== src/Controller/Samples.antt =====
-- One instance, the objects of its namespace, and an API server to run internal/controller against.
use showroom_msp_chat_ui.Prelude.{String, true, false, none, some, [], ◌∷◌}
use showroom_msp_chat_ui.Controller.Objects.{
  Instance, Meta, Owner, Ingress, group_version, pos, Secret,
}
use showroom_msp_chat_ui.Controller.Setup.{Kit, Reconciler}
use showroom_msp_chat_ui.Controller.Effects.{Api, Run}
use showroom_msp_chat_ui.Errors.{ok, err, remote, not_found}
use showroom_msp_chat_ui.Controller.Ingresses.{managed_rules}
use showroom_msp_chat_ui.Controller.Pods.{Deployment, PodSpec}

abbrev pub owner : Owner
owner = record { api_version = group_version; kind = "ChatUIInstance"; name = "chat"; uid = "u1" }

abbrev pub bare_meta : String → String → Meta
bare_meta name uid = record {
  name = name;
  namespace = "team";
  uid = uid;
  resource_version = "7";
  generation = 1;
  created = 2000;
  deleting = false;
  finalizers = [];
  labels = [];
  annotations = [];
  controller = none;
}

abbrev pub owned_meta : Meta
owned_meta = record (bare_meta "chat-chatui" "i1") { controller = some owner }

abbrev pub instance_of_team : Instance
instance_of_team = record {
  meta = bare_meta "chat" "u1";
  spec = record { credentials_secret = "backend"; replicas = pos 1; image = "" };
  status = record {
    access_secret_uids = [];
    phase = "Ready";
    url = "https://old.example.org";
    slug = "old";
    slug_source = "Legacy";
    observed_generation = 1;
    conditions = [];
  };
}

abbrev pub own_ingress : Ingress
own_ingress = record {
  meta = owned_meta;
  class_name = none;
  default_backend = none;
  rules = managed_rules "other.example.org" "/old" "chat-chatui";
  tls = [];
}

abbrev pub other_ingress : Ingress
other_ingress = record {
  meta = bare_meta "shop" "i2";
  class_name = none;
  default_backend = none;
  rules = managed_rules "*.shop.example.org" "/" "shop";
  tls = [];
}

abbrev pub kit : Kit
kit = record {
  validation = record { is_label = λ s. true; is_subdomain = λ s. true };
  sha256 = λ s. [];
  set_condition = λ conditions c. c ∷ [];
  is_condition_true = λ conditions type. false;
  set_controller = λ inst meta. ok (record meta { controller = some owner });
  base64_decode = λ s. some s;
  base64_encode = λ s. s;
  base64_url_encode = λ s. s;
  marshal = λ j. ok "{}";
  marshal_secret = λ m. ok "{}";
  guard_source = "";
  quote = λ s. s;
  decimal = λ n. "0";
  error_text = λ e. "error";
}

-- the Ingress cannot be deleted, and the Deployment not be read
abbrev pub api : Api
api = record {
  get_instance = λ log key. ok instance_of_team;
  get_deployment = λ log key. err (remote "timeout");
  get_service = λ log key. err not_found;
  get_ingress = λ log key. ok own_ingress;
  get_secret = λ log key. err not_found;
  list_ingresses = λ log. ok (own_ingress ∷ other_ingress ∷ []);
  list_deployments = λ log namespace. ok [];
  list_pods = λ log namespace. ok [];
  list_matching_pods = λ log namespace selector. ok [];
  random = λ log name. none;
  cached_secret = λ log key. err not_found;
  cached_deployment = λ log key. err not_found;
  cached_endpoints = λ log key. err not_found;
  service_health_checker = none;
  dns_checker = none;
  request = λ log url. ok 200;
  lookup_host = λ log host. ok ("10.0.0.1" ∷ []);
  send = λ log w. err (remote "conflict");
  send_instance = λ log w. ok instance_of_team;
  send_secret = λ log w. err (remote "conflict");
}

abbrev pub run : Run
run = record { log = []; inst = instance_of_team }

abbrev pub reconciler : Reconciler
reconciler = record {
  hostname_policy = record { cutover = 1000; entries = [] };
  access_policy = record {
    kcp_server = "https://kcp.example.org";
    kcp_ca = "";
    credentials_namespace = "credentials";
    proxy_image = "gate@sha256:1";
    entries = [];
  };
  public_host = "example.org";
  public_scheme = "https";
  extra_ingress_annotations = ("team", "chat") ∷ [];
  tls_secret_name = "wildcard";
}

abbrev pub bare_spec : PodSpec
bare_spec = record {
  init_containers = [];
  containers = [];
  ephemeral_containers = [];
  volumes = [];
  image_pull_secrets = [];
  automount_service_account_token = none;
  security_context = none;
  host_network = false;
  host_pid = false;
  host_ipc = false;
  share_process_namespace = none;
  rest = "";
}

abbrev pub own_deployment : Deployment
own_deployment = record {
  meta = owned_meta;
  replicas = some (pos 1);
  selector = some (record { match_labels = []; match_expressions = [] });
  strategy = "";
  template = record { labels = []; annotations = []; spec = bare_spec };
  status = record {
    observed_generation = 1;
    replicas = 1;
    updated_replicas = 1;
    ready_replicas = 1;
    available_replicas = 1;
  };
}

abbrev pub running_api : Api
running_api = record api { get_deployment = λ log key. ok own_deployment }

-- a session Secret of which every key has 32 bytes
abbrev pub session_of_team : Secret
session_of_team = record {
  meta = record (bare_meta "chatui-session-" "k1") { controller = some owner };
  immutable = some true;
  contents =
      ("cookie-secret", "0123456789abcdef0123456789abcdef")
      ∷ ("webui-secret", "0123456789abcdef0123456789abcdef")
      ∷ [];
}

abbrev pub pinned_run : Run
pinned_run = record {
  log = [];
  inst = record instance_of_team {
    status = record (instance_of_team.status) {
      access_secret_uids = ("chatui-session-", "k1") ∷ [];
    };
  };
}

abbrev pub session_api : Api
session_api = record api { get_secret = λ log key. ok session_of_team }

abbrev pub stopped_deployment : Deployment
stopped_deployment = record own_deployment {
  replicas = some (pos 0);
  selector = some (record {
    match_labels = ("app.kubernetes.io/name", "open-webui") ∷ [];
    match_expressions = record { key = "tier"; operator = "In"; values = "web" ∷ [] } ∷ [];
  });
  status = record {
    observed_generation = 1;
    replicas = 0;
    updated_replicas = 0;
    ready_replicas = 0;
    available_replicas = 0;
  };
}

-- no Ingress, and no pods
abbrev pub quiet_api : Api
quiet_api = record api { get_ingress = λ log key. err not_found }

-- the cache has the Deployment, and an endpoint
abbrev pub ready_api : Api
ready_api = record api {
  cached_deployment = λ log key. ok own_deployment;
  cached_endpoints = λ log key. ok (record { addresses = "10.0.0.7" ∷ []; ports = 8080 ∷ [] } ∷ []);
}
