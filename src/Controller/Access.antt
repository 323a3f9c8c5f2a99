-- ===== src/Controller/Access.antt =====
-- oauthConfiguration, oauthArguments, oauthCookieSecret and prepareAccess of access_resources.go: the
-- immutable bundle of credentials and configuration that an instance's pods
-- mount. The fields of a JSON object stand in the order of the source; their order means nothing.
pub mod Reading
pub mod Preserving
pub mod Pins
pub mod Provenance
mod Examples
use showroom_msp_chat_ui.Prelude.{
  String, Bool, true, false, ◌&&◌, ◌||◌, not, Option, none, some, List, [], ◌∷◌, ◌==◌, ltb, eqb,
  if◌then◌else◌,
}
use showroom_msp_chat_ui.AccessPolicy.{select, Entry}
use Prim.Native.String.{◌++◌, len}
use showroom_msp_chat_ui.Controller.Effects.{
  ◌>>=◌, ◌>>◌, Api, Action, current, fail, lift, pure, attempt, ask,
}
use showroom_msp_chat_ui.Controller.Setup.{
  Json, Fields, text, flag, list, object, nil, cons, end, field, Kit, Reconciler,
}
use showroom_msp_chat_ui.AccessGate.{token_header, cookie_name, Config}
use showroom_msp_chat_ui.Errors.{Result, err, fail_if, message, ok, is_not_found}
use showroom_msp_chat_ui.Text.{has_prefix}
use showroom_msp_chat_ui.Controller.Objects.{Instance, Secret}
use showroom_msp_chat_ui.Controller.Sessions.{
  session_secret, uid_hash, is_trusted, same_map, pin_of, create_pinned_secret,
}
use showroom_msp_chat_ui.Dictionary.{Map, value_of}
use showroom_msp_chat_ui.Controller.History.{make_access_secret_room}
use showroom_msp_chat_ui.Controller.Slug.{object_of}

pub record AccessBundle : Type 0 where
  pub name : String
  pub session_name : String
  pub revision : String
  pub public_url : String

abbrev one : Json → Json
one j = list (cons j nil)

unfoldable pub oauth_configuration : Entry → Json
oauth_configuration e = object (
    field "server" (object (field "bindAddress" (text "0.0.0.0:8080") end)) (
      field "providers"
        (one (
          object (
            field "id" (text "chatui") (
              field "provider" (text "oidc") (
                field "clientID" (text e.client_id) (
                  field "clientSecretFile" (text "/etc/chat-ui-access/client-secret") (
                    field "scope" (text "openid email") (
                      field "code_challenge_method" (text "S256") (
                        field "skipClaimsFromProfileURL" (flag true) (
                          field "oidcConfig"
                            (object (
                              field "issuerURL" (text e.issuer) (
                                field "insecureSkipNonce" (flag false) (
                                  field "userIDClaim" (text "sub")
                                    (field "emailClaim" (text "sub") end)))))
                            end))))))))))
        (field "upstreamConfig"
          (object (
            field "upstreams"
              (one (
                object (
                  field "id" (text "instance-access") (
                    field "path" (text "/") (
                      field "uri" (text "http://127.0.0.1:8082/") (
                        field "passHostHeader" (flag true) (
                          field "proxyWebSockets" (flag true)
                            (field "timeout" (text "0s") end))))))))
              end))
          (field "injectRequestHeaders"
            (one (
              object (
                field "name" (text token_header) (
                  field "preserveRequestValue" (flag false) (
                    field "values"
                      (one (
                        object
                          (field "claimSource" (object (field "claim" (text "id_token") end)) end)))
                      end)))))
            (field "injectResponseHeaders" (list nil) end)))))

unfoldable pub oauth_arguments : String → List String
oauth_arguments public_url =
    "--alpha-config=/etc/chat-ui-access/oauth.json"
    ∷ ("--redirect-url=" ++ (public_url ++ "/oauth2/callback"))
    ∷ ("--cookie-name=" ++ cookie_name)
    ∷ "--cookie-secret-file=/etc/chat-ui-access/cookie-secret"
    ∷ "--cookie-secure=true"
    ∷ "--cookie-httponly=true"
    ∷ "--cookie-samesite=lax"
    ∷ "--cookie-expire=1h"
    ∷ "--cookie-refresh=1m"
    ∷ "--cookie-csrf-per-request=true"
    ∷ "--cookie-csrf-per-request-limit=5"
    ∷ "--email-domain=*"
    ∷ "--skip-provider-button=true"
    ∷ "--skip-jwt-bearer-tokens=false"
    ∷ "--reverse-proxy=false"
    ∷ "--request-logging=false"
    ∷ "--auth-logging=false"
    ∷ []

-- json:"kcpCA,omitempty" leaves an empty text out.
abbrev pub ca_field : String → Fields → Fields
ca_field ca rest = if ca == "" then rest else field "kcpCA" (text ca) rest

-- accessgate.Config by its JSON tags
unfoldable pub gate_configuration : Config → Json
gate_configuration c = object (
    field "kcpServer" (text c.kcp_server) (
      ca_field c.kcp_ca (
        field "publicURL" (text c.public_url) (
          field "issuer" (text c.issuer) (
            field "clientID" (text c.client_id) (
              field "source"
                (object (
                  field "cluster" (text c.source.cluster) (
                    field "namespace" (text c.source.namespace)
                      (field "name" (text c.source.name) (field "uid" (text c.source.uid) end)))))
                end))))))

module _ (k : Kit) (api : Api) (r : Reconciler) where
  abbrev pub url_encoded : Option String → Result String
  url_encoded none = err (message "invalid session cookie key material")
  url_encoded (some bytes) =
      if not (eqb (len bytes) 32)
      then err (message "invalid session cookie key material")
      else ok (k.base64_url_encode bytes)

  unfoldable pub oauth_cookie_secret : String → Result String
  oauth_cookie_secret encoded = url_encoded (k.base64_decode encoded)

  abbrev pub reserves : String → Bool
  reserves name = has_prefix name "chatui-session-" || has_prefix name "chatui-access-"

  -- the checks before any Secret is read
  abbrev pub check_instance : Instance → Action (Unit {0})
  check_instance inst = do
    lift (
        fail_if
          (not (r.public_scheme == "https")
            || r.access_policy.credentials_namespace == inst.meta.namespace)
          "HTTPS and isolated operator credential namespace are required")
    lift (
        fail_if (reserves inst.spec.credentials_secret)
          "backend credentials reference a reserved access Secret name")

  abbrev pub credential_found : Result Secret → Action String
  credential_found (ok secret) =
      if ltb (len (value_of "client_secret" secret.contents)) 16
      then fail (message "OIDC client credential is missing or too short")
      else pure (value_of "client_secret" secret.contents)
  credential_found (err _) = fail (message "OIDC client credential unavailable")

  abbrev pub gate_config : Entry → String → Config
  gate_config e public_url = record {
    kcp_server = r.access_policy.kcp_server;
    kcp_ca = r.access_policy.kcp_ca;
    public_url = public_url;
    issuer = e.issuer;
    client_id = e.client_id;
    source = e.source;
  }

  -- the data of the bundle's Secret
  abbrev pub bundle_contents : Entry → String → String → String → Action (Map String)
  bundle_contents e public_url client_secret cookie_secret = do
    cookie ← lift (oauth_cookie_secret cookie_secret)
    gate ← lift (k.marshal (gate_configuration (gate_config e public_url)))
    oauth ← lift (k.marshal (oauth_configuration e))
    pure (
        ("gate.json", gate)
        ∷ ("oauth.json", oauth)
        ∷ ("client-secret", client_secret)
        ∷ ("cookie-secret", cookie)
        ∷ ("chatui_guard.py", k.guard_source)
        ∷ [])

  abbrev pub bundle_revision : Instance → String → String
  bundle_revision inst serialized =
      uid_hash k api (inst.meta.uid ++ (serialized ++ r.access_policy.proxy_image))

  abbrev pub bundle_found : Instance → String → Map String → Result Secret → Action (Unit {0})
  bundle_found inst name contents (ok existing) =
      if not (is_trusted k api inst existing && same_map existing.contents contents)
      then fail (message "access Secret ownership or content mismatch")
      else pure tt
  bundle_found inst name contents (err e) =
      if not (is_not_found e)
      then fail e
      else if not (pin_of k api inst name == "")
      then fail (message "pinned access Secret is missing; operator recovery required")
      else (do
        make_access_secret_room k api
        roomy ← current
        create_pinned_secret k api roomy name contents
        pure tt)

  unfoldable pub prepare_access : String → Action AccessBundle
  unfolding select oauth_cookie_secret gate_configuration oauth_configuration session_secret
      make_access_secret_room
  prepare_access host = do
    inst ← current
    e ← lift (select (some r.access_policy) (object_of inst))
    check_instance inst
    credential ← attempt (
        ask (λ log. api.get_secret log (record {
          namespace = r.access_policy.credentials_namespace;
          name = e.client_secret_name;
        })))
    client_secret ← credential_found credential
    session ← session_secret k api
    let public_url = "https://" ++ host
    contents ←
        bundle_contents e public_url client_secret (value_of "cookie-secret" session.contents)
    serialized ← lift (k.marshal_secret contents)
    pinned ← current
    let revision = bundle_revision pinned serialized
    let name = "chatui-access-" ++ revision
    existing ← attempt (
        ask (λ log. api.get_secret log (record { namespace = pinned.meta.namespace; name = name })))
    bundle_found pinned name contents existing
    pure (record {
      name = name;
      session_name = session.meta.name;
      revision = revision;
      public_url = public_url;
    })
