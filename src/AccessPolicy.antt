-- ===== src/AccessPolicy.antt =====
-- internal/accesspolicy/policy.go: which identity provider and source object guard an instance.
--
-- net/url, encoding/json and the DNS checks of k8s.io/apimachinery are parameters.
pub mod Parsing
pub mod Selecting
pub mod Samples
mod Examples
use showroom_msp_chat_ui.Prelude.{
  Char, code, String, Bool, true, false, ◌&&◌, ◌||◌, not, Option, none, some, List, [], ◌∷◌, ◌==◌,
  ltb, leb, eqb, if◌then◌else◌,
}
use Prim.Native.String.{[], ◌∷◌, ◌++◌, len}
use showroom_msp_chat_ui.Text.{has_prefix, drop, trim_space, contains_any}
use showroom_msp_chat_ui.Errors.{sentinel, message, unmapped, Result, ok, err, ◌>>=◌, ◌>>◌, fail_if}
use showroom_msp_chat_ui.HostnamePolicy.{Validation, Object, hex_run, mem}

abbrev pub oauth_image : String
oauth_image =
    "quay.io/oauth2-proxy/oauth2-proxy@sha256:8498b0d0ef0a7b29686414000a08aee467f02d0299c9ed1e006a8f33fc017916"

pub record Source : Type 0 where
  pub cluster : String
  pub namespace : String
  pub name : String
  pub uid : String

pub record Entry : Type 0 where
  pub uid : String
  pub namespace : String
  pub name : String
  pub source : Source
  pub issuer : String
  pub client_id : String
  pub client_secret_name : String

pub record Policy : Type 0 where
  pub kcp_server : String
  pub kcp_ca : String
  pub credentials_namespace : String
  pub proxy_image : String
  pub entries : List Entry

-- What the source reads of a *url.URL.
pub record Url : Type 0 where
  pub scheme : String
  pub hostname : String
  pub host : String
  pub has_user : Bool
  pub raw_query : String
  pub fragment : String
  pub raw_path : String
  pub path : String

-- json.Decoder with DisallowUnknownFields on a whole text: the first document, and whether io.EOF
-- follows it.
pub record Decoder {ℓ} (A : Type ℓ) : Type ℓ where
  pub first : String → Option A
  pub is_single : String → Bool

-- `read` is what reading at most 1 MiB and one byte gave.
unfoldable pub decode {ℓ} : {A : Type ℓ} → Decoder A → Result String → Result A
decode d (err e) = err (message "access configuration cannot be read or exceeds 1 MiB")
decode d (ok text) = do
  fail_if (ltb 1048576 (len text)) "access configuration cannot be read or exceeds 1 MiB"
  target ← elim (d.first text) [
    | none ↦ err (message "invalid access configuration JSON")
    | some a ↦ ok a
  ]
  fail_if (not (d.is_single text)) "access configuration requires one JSON document"
  ok target

abbrev pub is_explicit : String → Url → Bool
is_explicit raw u =
    u.scheme == "https"
    && not (u.hostname == "")
    && not u.has_user
    && u.raw_query == ""
    && u.fragment == ""
    && u.raw_path == ""
    && not (contains_any raw "\r\n\t ")

-- `parse_url` is url.Parse, `none` for its error.
unfoldable pub https_url : (String → Option Url) → String → Bool → Result (Unit {0})
https_url parse_url raw origin_only = elim (parse_url raw) [
  | none ↦ err (message "access endpoints must be explicit HTTPS URLs without credentials or query")
  | some u ↦ (do
    fail_if (not (is_explicit raw u))
        "access endpoints must be explicit HTTPS URLs without credentials or query"
    fail_if (origin_only && not (u.path == "")) "KCP server must be an HTTPS origin without a path")
]

-- [a-z0-9./:_-]
abbrev pub is_reference_char : Char → Bool
is_reference_char c =
    let n = code c in
    (leb b'a' n && leb n b'z')
    || (leb b'0' n && leb n b'9')
    || eqb n b'.'
    || eqb n b'/'
    || eqb n b':'
    || eqb n b'_'
    || eqb n b'-'

-- [a-z0-9./:_-]*@sha256:[a-f0-9]{64}$; no @ is in the class, so the first one ends the run
unfoldable pub has_digest : String → Bool
unfolding has_prefix drop hex_run
has_digest [] = false
has_digest (c ∷ s) =
    let rest = has_digest s in
    if eqb (code c) b'@'
    then has_prefix s "sha256:" && hex_run 64 (drop 7 s)
    else is_reference_char c && rest

-- ^[a-z0-9][a-z0-9./:_-]*@sha256:[a-f0-9]{64}$
unfoldable pub is_pinned : String → Bool
unfolding has_digest
is_pinned [] = false
is_pinned (c ∷ s) =
    ((leb b'a' (code c) && leb (code c) b'z') || (leb b'0' (code c) && leb (code c) b'9'))
    && has_digest s

abbrev pub local_key : Entry → String
local_key e = e.namespace ++ ("/" ++ e.name)

abbrev pub source_key : Entry → String
source_key e = e.source.cluster ++ ("/" ++ (e.source.namespace ++ ("/" ++ e.source.name)))

-- the maps uids, local and sources of Parse, of which only the keys are read
pub record Seen : Type 0 where
  pub uids : List String
  pub local : List String
  pub sources : List String

module _ (v : Validation) (parse_url : String → Option Url) where
  unfoldable pub validate_source : Source → Result (Unit {0})
  validate_source s =
      fail_if
        (not (v.is_label s.cluster)
          || not (v.is_label s.namespace)
          || not (v.is_subdomain s.name)
          || s.uid == ""
          || not (trim_space s.uid == s.uid))
        "access mapping requires exact source cluster, namespace, name and UID"

  abbrev pub is_reference : Entry → Bool
  is_reference e =
      not (e.uid == "")
      && v.is_label e.namespace
      && v.is_subdomain e.name
      && not (e.client_id == "")
      && not (contains_any e.client_id "\r\n\t ")
      && v.is_subdomain e.client_secret_name

  unfoldable pub validate_entry : Entry → Result (Unit {0})
  unfolding validate_source https_url
  validate_entry e = do
    fail_if (not (is_reference e)) "invalid access mapping identity or client reference"
    validate_source e.source
    https_url parse_url e.issuer false

  -- One round of the loop of Parse.
  unfoldable pub check_entry : Entry → Seen → Result Seen
  check_entry e seen = do
    validate_entry e
    fail_if (mem e.uid seen.uids || mem (local_key e) seen.local || mem (source_key e) seen.sources)
        "duplicate access mapping"
    ok (record {
      uids = e.uid ∷ seen.uids;
      local = local_key e ∷ seen.local;
      sources = source_key e ∷ seen.sources;
    })

  unfoldable pub check_entries : List Entry → Seen → Result Seen
  check_entries [] seen = ok seen
  check_entries (e ∷ es) seen = check_entry e seen >>= check_entries es

  unfoldable pub parse : Decoder Policy → Result String → Result Policy
  unfolding decode
  parse decoder read = do
    p ← decode decoder read
    https_url parse_url p.kcp_server true
    fail_if (not (v.is_label p.credentials_namespace) || not (is_pinned p.proxy_image))
        "access policy requires a credential namespace and digest-pinned proxy image"
    check_entries p.entries (record { uids = []; local = []; sources = [] })
    ok p

abbrev pub matches : Entry → Object → Bool
matches e object = e.uid == object.uid && e.namespace == object.namespace && e.name == object.name

unfoldable pub select_from : List Entry → Object → Result Entry
select_from [] object = err (sentinel unmapped)
select_from (e ∷ es) object =
    let rest = select_from es object in if matches e object then ok e else rest

-- `none` is a nil policy.
unfoldable pub select : Option Policy → Object → Result Entry
select none object = err (sentinel unmapped)
select (some p) object =
    if not (object.uid == "") then select_from p.entries object else err (sentinel unmapped)

unfoldable pub path : Source → String
path s =
    "/clusters/"
    ++ (s.cluster
        ++ ("/apis/ui.privatellms.msp/v1alpha1/namespaces/"
            ++ (s.namespace ++ ("/chatuiinstances/" ++ s.name))))
