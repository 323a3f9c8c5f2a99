-- ===== src/AccessGate/Authorize.antt =====
-- authorize and oidcIdentity: KCP is asked for the exact source object with the caller's token, and
-- the token's claims count only after that.
pub mod Granting
use showroom_msp_chat_ui.Prelude.{
  ℕ, String, Bool, ◌&&◌, ◌||◌, not, Option, none, some, List, [], ◌∷◌, ◌==◌, ltb, eqb, is_some,
  length, any,
}
use Prim.Native.String.{◌++◌, len}
use showroom_msp_chat_ui.Dictionary.{Map, value_of, lookup}
use showroom_msp_chat_ui.Errors.{given, Result, ◌>>=◌, ◌>>◌, fail_if}
use showroom_msp_chat_ui.AccessGate.{Config, err, ok, message}
use showroom_msp_chat_ui.HostnamePolicy.{hex}
use showroom_msp_chat_ui.Text.{split, contains_any}
use showroom_msp_chat_ui.AccessPolicy.{path}

-- An answer of KCP: its status, and its body as read up to 1 MiB and one byte, `none` on an error.
pub record Response : Type 0 where
  pub status : ℕ
  pub body : Option String

pub record SourceObject : Type 0 where
  pub api_version : String
  pub kind : String
  pub name : String
  pub namespace : String
  pub uid : String
  pub deletion_timestamp : Option String
  pub annotations : Map String

-- the claims, with `aud` as raw JSON and `exp` as the instant that time.Unix gives for it
pub record Claims : Type 0 where
  pub issuer : String
  pub subject : String
  pub audience : String
  pub expires : ℕ
  pub authorized_party : String

-- What is not the operator's own: the requests to KCP, JSON, base64, SHA-256 and the clock.
-- Instants are numbers.
pub record World : Type 0 where
  pub request_fault : String → Option String
  pub get_object : String → String → Option Response
  pub read_object : String → Option SourceObject
  pub read_payload : String → Option String
  pub read_claims : String → Option Claims
  pub read_texts : String → Option (List String)
  pub read_text : String → Option String
  pub sha256 : String → List ℕ
  pub now : ℕ

pub record Identity : Type 0 where
  pub name : String
  pub expires : ℕ

-- strings.Split gives three parts
abbrev pub middle : List String → Option String
middle (header ∷ payload ∷ signature ∷ []) = some payload
middle _ = none

abbrev pub audiences : World → String → Result (List String)
audiences w raw = elim (w.read_texts raw) [
  | some auds ↦ ok auds
  | none ↦ elim (w.read_text raw) [
    | some aud ↦ ok (aud ∷ [])
    | none ↦ err (message "invalid audience")
  ]
]

abbrev pub is_foreign : Config → ℕ → Claims → List String → Bool
is_foreign c now claims auds =
    not (claims.issuer == c.issuer)
    || claims.subject == ""
    || not (any (λ aud. aud == c.client_id) auds)
    || not (ltb now claims.expires)
    || (ltb 1 (length auds) && not (claims.authorized_party == c.client_id))
    || (not (claims.authorized_party == "") && not (claims.authorized_party == c.client_id))

abbrev pub pseudonym : World → Claims → String
pseudonym w claims = hex (w.sha256 (claims.issuer ++ ("\0" ++ claims.subject))) ++ "@chatui.invalid"

module _ (c : Config) (w : World) where
  unfoldable pub oidc_identity : String → Result Identity
  unfolding split
  oidc_identity token = do
    part ← given (middle (split b'.' token)) "OIDC token required"
    payload ← given (w.read_payload part) "invalid OIDC claims"
    claims ← given (w.read_claims payload) "invalid OIDC claims"
    auds ← audiences w claims.audience
    fail_if (is_foreign c w.now claims auds) "invalid OIDC identity"
    ok (record { name = pseudonym w claims; expires = claims.expires })

  abbrev pub is_bad_token : String → Bool
  is_bad_token token = token == "" || ltb 65536 (len token) || contains_any token "\r\n\t "

  abbrev pub is_source : SourceObject → Bool
  is_source o =
      o.api_version == "ui.privatellms.msp/v1alpha1"
      && o.kind == "ChatUIInstance"
      && o.uid == c.source.uid
      && o.name == c.source.name
      && o.namespace == c.source.namespace
      && value_of "kcp.io/cluster" o.annotations == c.source.cluster
      && not (is_some o.deletion_timestamp)

  -- http.NewRequestWithContext fails with an error of its own.
  abbrev pub request : String → Result (Unit {0})
  request url = elim (w.request_fault url) [ none ↦ ok tt | some text ↦ err (message text) ]

  abbrev pub permission : Result Response → Result SourceObject
  permission (err e) = err e
  permission (ok res) = do
    fail_if (not (eqb res.status 200)) "permission denied"
    body ← given res.body "invalid permission response"
    fail_if (ltb 1048576 (len body)) "invalid permission response"
    given (w.read_object body) "invalid permission response"

  unfoldable pub authorize : String → Result Identity
  unfolding oidc_identity path contains_any lookup
  authorize token = do
    fail_if (is_bad_token token) "missing credential"
    let url = c.kcp_server ++ path c.source
    request url
    object ← permission (given (w.get_object url token) "permission check unavailable")
    fail_if (not (is_source object)) "source instance identity changed"
    oidc_identity token
