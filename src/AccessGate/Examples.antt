-- ===== src/AccessGate/Examples.antt =====
-- The theorems on internal/accessgate/gate.go at one gate, one request and what KCP may answer it.
use showroom_msp_chat_ui.Prelude.{
  ℕ, String, ◌≡◌, refl, sym, ◌∙◌, ◌≢◌, false, none, some, List, [], ◌∷◌, ◌==◌, ==-false,
}
use Prim.Native.String.{◌++◌}
use showroom_msp_chat_ui.AccessPolicy.{Source, path}
use showroom_msp_chat_ui.AccessGate.{Gate, token_header}
use showroom_msp_chat_ui.AccessGate.Header.{Header, values, canonical}
use showroom_msp_chat_ui.AccessGate.Rewrite.{CookieJar, rewrite}
use showroom_msp_chat_ui.AccessGate.Rewrite.Trusted.{trusted, IsCanonical, rewrite-trusted}
use showroom_msp_chat_ui.AccessGate.Authorize.{
  SourceObject, Claims, World, Identity, authorize, oidc_identity,
}
use showroom_msp_chat_ui.AccessGate.Serve.{
  Request, serve, watch, Event, tick, done, forward, recheck, ended, cancelled, is_upgrade,
  is_unsafe, allowed_auth_path,
}
use showroom_msp_chat_ui.AccessGate.Authorize.Granting.{IsPermitted, IsClaimed, authorize_iff}
use showroom_msp_chat_ui.AccessGate.Serve.Admission.{IsAdmitted, serve_not_admitted, serve_iff}
use showroom_msp_chat_ui.AccessGate.Serve.Watching.{StillGranted, watch_iff}
use showroom_msp_chat_ui.Dictionary.{lookup}
use showroom_msp_chat_ui.Text.{contains_any, split, pick, clean}
use showroom_msp_chat_ui.Errors.{ok}
use showroom_msp_chat_ui.HostnamePolicy.{hex}

abbrev source : Source
source = record { cluster = "c1"; namespace = "team"; name = "chat"; uid = "s1" }

abbrev gate : Gate
gate = record {
  config = record {
    kcp_server = "https://kcp.example.org";
    kcp_ca = "";
    public_url = "https://ui.example.org";
    issuer = "https://id.example.org";
    client_id = "client";
    source = source;
  };
  host = "ui.example.org";
  upstream = record {
    scheme = "http";
    hostname = "127.0.0.1";
    host = "127.0.0.1:8081";
    has_user = false;
    raw_query = "";
    fragment = "";
    raw_path = "";
    path = "";
  };
}

abbrev live_object : SourceObject
live_object = record {
  api_version = "ui.privatellms.msp/v1alpha1";
  kind = "ChatUIInstance";
  name = "chat";
  namespace = "team";
  uid = "s1";
  deletion_timestamp = none;
  annotations = ("kcp.io/cluster", "c1") ∷ [];
}

abbrev claims : Claims
claims = record {
  issuer = "https://id.example.org";
  subject = "alice";
  audience = "[]";
  expires = 50;
  authorized_party = "client";
}

abbrev world_at : ℕ → World
world_at n = record {
  request_fault = λ url. none;
  get_object = λ url token. some (record { status = 200; body = some "{}" });
  read_object = λ body. some live_object;
  read_payload = λ part. some part;
  read_claims = λ payload. some claims;
  read_texts = λ raw. some ("other" ∷ "client" ∷ []);
  read_text = λ raw. none;
  sha256 = λ text. 18 ∷ 171 ∷ [];
  now = n;
}

abbrev alice : Identity
alice = record { name = "12ab@chatui.invalid"; expires = 50 }

abbrev request : Request
request = record {
  host = "ui.example.org";
  method = "POST";
  path = "/api/../api/chats";
  header = ("Origin", "https://ui.example.org" ∷ []) ∷ ("X-Chatui-Oidc-Token", "h.p.s" ∷ []) ∷ [];
}

abbrev foreign_request : Request
foreign_request = record request { host = "other.example.org" }

abbrev header : Header
header = ("X-Remote-User", "root" ∷ []) ∷ ("Accept", "text/html" ∷ []) ∷ []

abbrev jar : CookieJar
jar = record {
  read = λ lines. record { name = "theme"; value = "dark" } ∷ [];
  render = λ c. c.name ++ ("=" ++ c.value);
}

alice-authorized : authorize gate.config (world_at 7) "h.p.s" ≡ ok alice
unfolding authorize oidc_identity path contains_any lookup split hex pick
alice-authorized = refl

authorize_iff_example :
    IsPermitted gate.config (world_at 7) "h.p.s" × IsClaimed gate.config (world_at 7) "h.p.s" alice
authorize_iff_example = (authorize_iff gate.config (world_at 7) "h.p.s" alice).0 alice-authorized

request-forwarded : serve gate (world_at 7) request ≡ forward alice
unfolding serve authorize oidc_identity path contains_any lookup split hex pick canonical clean
    is_upgrade is_unsafe allowed_auth_path
request-forwarded = refl

serve_iff_example :
    IsAdmitted gate request
    × ((token : String) × (values token_header request.header ≡ token ∷ [])
        × (authorize gate.config (world_at 7) token ≡ ok alice))
serve_iff_example = (serve_iff gate (world_at 7) request alice).0 request-forwarded

foreign_request-refused : ¬ IsAdmitted gate foreign_request
foreign_request-refused a = let e : foreign_request.host ≡ gate.host = a.host in cc

serve_not_admitted_example :
    (serve gate (world_at 7) foreign_request ≡ serve gate (world_at 70) foreign_request)
    × ((i : Identity) → serve gate (world_at 7) foreign_request ≢ forward i)
serve_not_admitted_example =
    serve_not_admitted gate (world_at 7) (world_at 70) foreign_request foreign_request-refused

abbrev events : List Event
events = tick (world_at 8) ∷ tick (world_at 18) ∷ done ∷ tick (world_at 60) ∷ []

events-watched : watch gate "h.p.s" alice.name events ≡ ended
unfolding watch recheck authorize oidc_identity path contains_any lookup split hex pick
events-watched = refl

ended-ne-cancelled : ended ≢ cancelled
ended-ne-cancelled e = cc

watch_iff_example : StillGranted gate "h.p.s" alice.name events
watch_iff_example =
    (watch_iff gate "h.p.s" alice.name events).0 (λ e. ended-ne-cancelled (sym events-watched ∙ e))

header-IsCanonical : IsCanonical header
unfolding canonical
header-IsCanonical = (refl, (refl, tt))

accept-ne-cookie : "Accept" == "Cookie" ≡ false
accept-ne-cookie = refl

rewrite-trusted_example :
    (lookup "Accept" (rewrite jar gate alice.name header).header
      ≡ trusted gate alice.name header "Accept")
    × ((rewrite jar gate alice.name header).host ≡ gate.host)
    × ((rewrite jar gate alice.name header).target ≡ gate.upstream)
rewrite-trusted_example =
    rewrite-trusted jar gate alice.name header "Accept" header-IsCanonical
      (==-false accept-ne-cookie)
