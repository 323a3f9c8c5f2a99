-- ===== src/AccessGate/Serve.antt =====
-- ServeHTTP with its permission watch, allowedAuthPath and Health.
pub mod Admission
pub mod Watching
use showroom_msp_chat_ui.Prelude.{
  ℕ, String, Bool, true, false, ◌&&◌, ◌||◌, not, Option, none, some, List, [], ◌∷◌, ◌==◌, ltb, eqb,
  if◌then◌else◌, length, any,
}
use showroom_msp_chat_ui.AccessGate.Header.{Header, get, values}
use showroom_msp_chat_ui.AccessGate.Authorize.{Identity, World, authorize}
use showroom_msp_chat_ui.Text.{equal_fold, clean, split, has_prefix, trim_space}
use showroom_msp_chat_ui.AccessGate.{Gate, err, ok, token_header}

pub record Request : Type 0 where
  pub host : String
  pub method : String
  pub path : String
  pub header : Header

-- What ServeHTTP does with a request: an error with its status and text, or the proxy with the
-- identity in the context and its expiry as the deadline. Either way Cache-Control is no-store.
pub data Outcome : Type 0 where
  refuse : ℕ → String → Outcome
  forward : Identity → Outcome

unfoldable pub is_unsafe : Request → Bool
is_unsafe r = not (r.method == "GET") && not (r.method == "HEAD") && not (r.method == "OPTIONS")

unfoldable pub is_upgrade : Request → Bool
unfolding equal_fold split trim_space
is_upgrade r =
    not (get "Upgrade" r.header == "")
    || any (λ value. any (λ token. equal_fold (trim_space token) "upgrade") (split b',' value))
        (values "Connection" r.header)

abbrev pub origin_is_bad : Gate → Request → Bool
origin_is_bad g r =
    let origin = get "Origin" r.header in
    ltb 1 (length (values "Origin" r.header))
    || (not (origin == "") && not (origin == g.config.public_url))
    || ((is_unsafe r || is_upgrade r) && origin == "")

unfoldable pub allowed_auth_path : String → Bool
allowed_auth_path p =
    p == "/api/v1/auths/signin"
    || p == "/api/v1/auths/signout"
    || p == "/api/v1/auths/update/profile"
    || p == "/api/v1/auths/update/timezone"

abbrev pub only : List String → Option String
only (token ∷ []) = some token
only _ = none

abbrev pub authorized : Gate → World → Option String → Outcome
authorized g w none = refuse 401 "Sign in required"
authorized g w (some token) = elim (authorize g.config w token) [
  | err e ↦ refuse 403 "Chat UI access denied"
  | ok identity ↦ forward identity
]

unfoldable pub serve : Gate → World → Request → Outcome
unfolding is_unsafe is_upgrade allowed_auth_path clean has_prefix
serve g w r =
    let p = clean r.path in
    if not (r.host == g.host)
    then refuse 400 "Invalid host"
    else if origin_is_bad g r
    then refuse 403 "Invalid origin"
    else if is_upgrade r && not (p == "/ws/socket.io")
    then refuse 403 "WebSocket route unavailable"
    else if has_prefix p "/api/v1/auths/" && not (allowed_auth_path p)
    then refuse 403 "Authentication managed by the platform"
    else authorized g w (only (values token_header r.header))

-- What the goroutine beside a forwarded request sees: a tick of its ticker, with what KCP and the
-- clock say then, or the end of the request's context.
pub data Event : Type 0 where
  tick : World → Event
  done : Event

pub data Watch : Type 0 where
  running ended cancelled : Watch

-- err == nil and the same identity
unfoldable pub recheck : Gate → String → String → World → Bool
recheck g token identity w = elim (authorize g.config w token) [
  | err e ↦ false
  | ok current ↦ current.name == identity
]

unfoldable pub watch : Gate → String → String → List Event → Watch
unfolding recheck
watch g token identity [] = running
watch g token identity (done ∷ events) = ended
watch g token identity (tick w ∷ events) = elim (recheck g token identity w) [
  | true ↦ watch g token identity events
  | false ↦ cancelled
]

-- The status of Health; `probe` is the status of the application's health page, `none` where the
-- request for it fails.
unfoldable pub health : String → String → Option ℕ → ℕ
health method path none = if not (method == "GET") || not (path == "/readyz") then 404 else 503
health method path (some status) =
    if not (method == "GET") || not (path == "/readyz")
    then 404
    else if not (eqb status 200)
    then 503
    else 200
