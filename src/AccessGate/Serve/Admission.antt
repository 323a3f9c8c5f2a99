-- ===== src/AccessGate/Serve/Admission.antt =====
-- Which requests reach the proxy.
use showroom_msp_chat_ui.Prelude.{
  ◌≤◌, ◌≡◌, ◌≢◌, ◌⊎◌, Bool, true, ◌&&◌, not, arith, ◌==◌, eq_iff, length, String, refl, sym, ◌∙◌,
  ◌↔◌, inl, inr, false, List, [], ◌∷◌, if◌then◌else◌, Bool-cases,
}
use showroom_msp_chat_ui.AccessGate.{Gate, token_header, ok}
use showroom_msp_chat_ui.AccessGate.Serve.{
  Request, origin_is_bad, is_unsafe, is_upgrade, allowed_auth_path, serve, Outcome, authorized,
  refuse, forward, only,
}
use showroom_msp_chat_ui.AccessGate.Header.{values, get}
use showroom_msp_chat_ui.Text.{clean, has_prefix}
use showroom_msp_chat_ui.AccessGate.Authorize.{World, Identity, authorize}

-- The checks of a request before its token is looked at, as the origin policy, the one WebSocket
-- route and the sign-in paths that the platform leaves open.
pub record IsAdmitted (g : Gate) (r : Request) : Type 0 where
  pub host : r.host ≡ g.host
  pub one_origin : length (values "Origin" r.header) ≤ 1
  pub origin : (get "Origin" r.header ≡ "") ⊎ (get "Origin" r.header ≡ g.config.public_url)
  pub unsafe_origin : is_unsafe r ≡ true → get "Origin" r.header ≢ ""
  pub upgrade_origin : is_upgrade r ≡ true → get "Origin" r.header ≢ ""
  pub upgrade_route : is_upgrade r ≡ true → clean r.path ≡ "/ws/socket.io"
  pub auth_route :
      has_prefix (clean r.path) "/api/v1/auths/" ≡ true → allowed_auth_path (clean r.path) ≡ true

abbrev is_admitted : Gate → Request → Bool
is_admitted g r =
    r.host == g.host
    && not (origin_is_bad g r)
    && not (is_upgrade r && not (clean r.path == "/ws/socket.io"))
    && not (has_prefix (clean r.path) "/api/v1/auths/" && not (allowed_auth_path (clean r.path)))

is_admitted_sound : (g : Gate) (r : Request) → is_admitted g r ≡ true → IsAdmitted g r
is_admitted_sound g r h =
    let origin = get "Origin" r.header in
    let e1 = eq_iff r.host g.host in
    let e2 = eq_iff origin "" in
    let e3 = eq_iff origin g.config.public_url in
    let e4 = eq_iff (clean r.path) "/ws/socket.io" in
    record {
      host = ground arith;
      one_origin = ground arith;
      origin = ground arith;
      unsafe_origin = ground arith;
      upgrade_origin = ground arith;
      upgrade_route = ground arith;
      auth_route = ground arith;
    }

is_admitted_complete : (g : Gate) (r : Request) → IsAdmitted g r → is_admitted g r ≡ true
is_admitted_complete g r a =
    let origin = get "Origin" r.header in
    let e2 = eq_iff origin "" in
    let e3 = eq_iff origin g.config.public_url in
    let e4 = eq_iff (clean r.path) "/ws/socket.io" in
    let host : r.host == g.host ≡ true = (eq_iff r.host g.host).1 a.host in
    let fine : origin_is_bad g r ≡ false =
      ground (arith, a.one_origin, a.origin, a.unsafe_origin, a.upgrade_origin) in
    let route : is_upgrade r && not (clean r.path == "/ws/socket.io") ≡ false =
      ground (arith, a.upgrade_route) in
    let auth : has_prefix (clean r.path) "/api/v1/auths/" && not (allowed_auth_path (clean r.path))
        ≡ false =
      ground (arith, a.auth_route) in
    rw (host, fine, route, auth)

-- Four checks in turn.
module _ (a b c d : Bool) (x y z u answer : Outcome) where
  checks_pass :
      a && not b && not c && not d ≡ true
      → (if not a then x else if b then y else if c then z else if d then u else answer) ≡ answer
  checks_pass h = ground arith

  checks_fail :
      a && not b && not c && not d ≡ false
      → (if not a then x else if b then y else if c then z else if d then u else answer)
        ≡ (if not a then x else if b then y else if c then z else u)
  checks_fail h = ground arith

serve_admitted :
    (g : Gate) (w : World) (r : Request)
    → is_admitted g r ≡ true
    → serve g w r ≡ authorized g w (only (values token_header r.header))
unfolding serve
serve_admitted g w r h = checks_pass _ _ _ _ _ _ _ _ _ h

-- The refusal of a request that is not admitted, which asks nothing of KCP or the clock.
refusal : Gate → Request → Outcome
refusal g r =
    if not (r.host == g.host)
    then refuse 400 "Invalid host"
    else if origin_is_bad g r
    then refuse 403 "Invalid origin"
    else if is_upgrade r && not (clean r.path == "/ws/socket.io")
    then refuse 403 "WebSocket route unavailable"
    else refuse 403 "Authentication managed by the platform"

serve_refused :
    (g : Gate) (w : World) (r : Request) → is_admitted g r ≡ false → serve g w r ≡ refusal g r
unfolding serve refusal
serve_refused g w r h = checks_fail _ _ _ _ _ _ _ _ _ h

authorized_iff :
    (g : Gate) (w : World) (tokens : List String) (i : Identity)
    → (authorized g w (only tokens) ≡ forward i)
      ↔ ((token : String) × (tokens ≡ token ∷ []) × (authorize g.config w token ≡ ok i))
authorized_iff g w [] i = ground arith
authorized_iff g w (token ∷ []) i = (λ h. (token, refl, ground arith), λ (t, e, a). ground arith)
authorized_iff g w (token ∷ other ∷ tokens) i = ground arith

refusal-ne-forward : (g : Gate) (r : Request) (i : Identity) → refusal g r ≢ forward i
unfolding refusal
refusal-ne-forward g r i = ground arith

-- A request is forwarded as `i` exactly when it is admitted and carries one token header whose token
-- is authorized as `i`.
pub serve_iff :
    (g : Gate) (w : World) (r : Request) (i : Identity)
    → (serve g w r ≡ forward i) ↔ (
        IsAdmitted g r
        × ((token : String) × (values token_header r.header ≡ token ∷ [])
            × (authorize g.config w token ≡ ok i)))
serve_iff g w r i = elim (Bool-cases (is_admitted g r)) [
  | inl h ↦ (
    λ s. (
      is_admitted_sound g r h,
      (authorized_iff g w (values token_header r.header) i).0 (sym (serve_admitted g w r h) ∙ s),
    ),
    λ (a, t). serve_admitted g w r h ∙ (authorized_iff g w (values token_header r.header) i).1 t,
  )
  | inr h ↦ (
    λ s. absurd (refusal-ne-forward g r i (sym (serve_refused g w r h) ∙ s)),
    λ (a, t). absurd (ground (arith, is_admitted_complete g r a)),
  )
]

-- A request that is not admitted gets the same answer, an error, whatever KCP and the clock say.
pub serve_not_admitted :
    (g : Gate) (w w' : World) (r : Request)
    → ¬ IsAdmitted g r
    → (serve g w r ≡ serve g w' r) × ((i : Identity) → serve g w r ≢ forward i)
serve_not_admitted g w w' r n =
    let no : is_admitted g r ≡ false =
      ground (arith, λ (h : is_admitted g r ≡ true). n (is_admitted_sound g r h)) in
    (
      serve_refused g w r no ∙ sym (serve_refused g w' r no),
      λ i s. refusal-ne-forward g r i (sym (serve_refused g w r no) ∙ s),
    )
