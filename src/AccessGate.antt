-- ===== src/AccessGate.antt =====
-- internal/accessgate/gate.go: the proxy that authorizes each browser request. The children model
-- the headers, the permission check and the handlers; this file has the configuration.
pub mod Header
pub mod Rewrite
pub mod Authorize
pub mod Serve
mod Examples
use showroom_msp_chat_ui.Prelude.{
  String, Bool, true, false, not, Option, none, some, List, [], ◌∷◌, ◌==◌, if◌then◌else◌,
}
use showroom_msp_chat_ui.AccessPolicy.{Source, Url, https_url, validate_source}
use showroom_msp_chat_ui.HostnamePolicy.{Validation}
use showroom_msp_chat_ui.Errors.{Result, ok, fail_if, err, message, ◌>>◌, ◌>>=◌}

abbrev pub token_header : String
token_header = "X-Chatui-OIDC-Token"

abbrev pub email_header : String
email_header = "X-Chatui-Email"

abbrev pub role_header : String
role_header = "X-Chatui-Role"

abbrev pub cookie_name : String
cookie_name = "__Host-chatui-session"

abbrev pub web_ui_url : String
web_ui_url = "http://127.0.0.1:8081"

pub record Config : Type 0 where
  pub kcp_server : String
  pub kcp_ca : String
  pub public_url : String
  pub issuer : String
  pub client_id : String
  pub source : Source

-- What the handlers read of a Gate; its clients are parameters of the handlers.
pub record Gate : Type 0 where
  pub config : Config
  pub host : String
  pub upstream : Url

-- x509: whether a text holds certificates, and whether the system's trust store is there
pub record TrustStore : Type 0 where
  pub has_certificates : String → Bool
  pub system : Bool

module _ (v : Validation) (parse_url : String → Option Url) where
  unfoldable pub check_origins : List String → Result (Unit {0})
  check_origins [] = ok tt
  check_origins (endpoint ∷ endpoints) =
      https_url parse_url endpoint true >> check_origins endpoints

  unfoldable pub validate : Config → Result (Unit {0})
  unfolding check_origins
  validate c = do
    check_origins (c.kcp_server ∷ c.public_url ∷ [])
    https_url parse_url c.issuer false
    fail_if (c.client_id == "") "OIDC client ID is required"
    validate_source v parse_url c.source

  abbrev pub trust : TrustStore → String → Result (Unit {0})
  trust store ca =
      if not (ca == "")
      then fail_if (not (store.has_certificates ca)) "invalid KCP CA"
      else fail_if (not store.system) "system trust store unavailable"

  abbrev pub parsed : Option Url → Result Url
  parsed none = err (message "parse")
  parsed (some u) = ok u

  abbrev pub host_of : Option Url → String
  host_of none = ""
  host_of (some u) = u.host

  unfoldable pub new_gate : TrustStore → Config → String → Result Gate
  unfolding validate
  new_gate store c upstream = do
    validate c
    trust store c.kcp_ca
    target ← parsed (parse_url upstream)
    ok (record { config = c; host = host_of (parse_url c.public_url); upstream = target })
