-- ===== src/Controller/Reconcile/Samples.antt =====
-- An instance that passes every check, and the cluster around it.
use showroom_msp_chat_ui.Prelude.{String, true, none, some, [], ◌∷◌, ◌==◌, if◌then◌else◌}
use showroom_msp_chat_ui.Controller.Samples.{
  own_deployment, instance_of_team, api, reconciler, owned_meta, bare_meta, session_of_team,
}
use showroom_msp_chat_ui.Controller.Objects.{Instance, Secret, Key}
use showroom_msp_chat_ui.Controller.Setup.{Reconciler}
use showroom_msp_chat_ui.Controller.Effects.{Api}
use showroom_msp_chat_ui.Controller.Reconcile.{finalizer_name}
use showroom_msp_chat_ui.Errors.{ok, err, not_found}

abbrev pub key : Key
key = record { namespace = "team"; name = "chat" }

-- finalizer, slug and pins are there
abbrev pub settled_instance : Instance
settled_instance = record instance_of_team {
  meta = record (instance_of_team.meta) { finalizers = finalizer_name ∷ "other" ∷ [] };
  status = record (instance_of_team.status) {
    slug = "ui-";
    slug_source = "Derived";
    access_secret_uids = ("chatui-session-", "k1") ∷ ("chatui-access-", "k2") ∷ [];
  };
}

abbrev pub deleted_instance : Instance
deleted_instance = record settled_instance {
  meta = record (settled_instance.meta) { deleting = true };
}

abbrev pub client_credential : Secret
client_credential = record {
  meta = bare_meta "credential" "k3";
  immutable = none;
  contents = ("client_secret", "0123456789abcdef") ∷ [];
}

abbrev pub bundle : Secret
bundle = record {
  meta = record owned_meta { name = "chatui-access-"; uid = "k2" };
  immutable = some true;
  contents =
      ("gate.json", "{}")
      ∷ ("oauth.json", "{}")
      ∷ ("client-secret", "0123456789abcdef")
      ∷ ("cookie-secret", "0123456789abcdef0123456789abcdef")
      ∷ ("chatui_guard.py", "")
      ∷ [];
}

abbrev pub backend : Secret
backend = record {
  meta = bare_meta "backend" "k7";
  immutable = none;
  contents = ("OPENAI_API_KEY", "sk-1") ∷ ("OPENAI_API_URL", "https://llm.example.org") ∷ [];
}

abbrev secret_named : String → Secret
secret_named name =
    if name == "credential"
    then client_credential
    else if name == "chatui-session-"
    then session_of_team
    else bundle

-- the workload is not there yet, and every write succeeds
abbrev pub team_api : Api
team_api = record api {
  get_instance = λ log name. ok settled_instance;
  get_deployment = λ log name. err not_found;
  get_ingress = λ log name. err not_found;
  get_secret = λ log name. ok (secret_named name.name);
  cached_secret = λ log name. ok backend;
  list_ingresses = λ log. ok [];
  send = λ log w. ok tt;
  send_instance = λ log w. ok settled_instance;
}

-- the cache has the Deployment, rolled out, and an endpoint
abbrev pub provisioned_api : Api
provisioned_api = record team_api {
  cached_deployment = λ log name. ok own_deployment;
  cached_endpoints =
      λ log name. ok (record { addresses = "10.0.0.7" ∷ []; ports = 8080 ∷ [] } ∷ []);
}

abbrev pub deleting_api : Api
deleting_api = record team_api { get_instance = λ log name. ok deleted_instance }

abbrev pub team_reconciler : Reconciler
team_reconciler = record reconciler {
  access_policy = record (reconciler.access_policy) {
    entries =
        record {
          uid = "u1";
          namespace = "team";
          name = "chat";
          source = record { cluster = "c1"; namespace = "team"; name = "chat"; uid = "s1" };
          issuer = "https://id.example.org";
          client_id = "client";
          client_secret_name = "credential";
        }
        ∷ [];
  };
}
