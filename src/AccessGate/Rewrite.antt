-- ===== src/AccessGate/Rewrite.antt =====
-- The Rewrite function of the gate's reverse proxy.
pub mod Trusted
use showroom_msp_chat_ui.Prelude.{String, List, [], ◌∷◌, ◌==◌, if◌then◌else◌}
use Prim.Native.String.{◌++◌}
use showroom_msp_chat_ui.AccessPolicy.{Url}
use showroom_msp_chat_ui.AccessGate.Header.{Header, strip_identity, set_header, values, delete, get}
use showroom_msp_chat_ui.Text.{has_prefix}
use showroom_msp_chat_ui.AccessGate.{cookie_name, Gate, role_header, email_header}

pub record Cookie : Type 0 where
  pub name : String
  pub value : String

-- net/http's cookies: the cookies of a Cookie header, and how AddCookie writes one
pub record CookieJar : Type 0 where
  pub read : List String → List Cookie
  pub render : Cookie → String

-- what Rewrite changes of an outgoing request
pub record Outgoing : Type 0 where
  pub target : Url
  pub host : String
  pub header : Header

module _ (jar : CookieJar) where
  -- http.Request.AddCookie
  unfoldable pub add_cookie : Cookie → Header → Header
  add_cookie c h =
      let old = get "Cookie" h in
      set_header "Cookie" (if old == "" then jar.render c else old ++ ("; " ++ jar.render c)) h

  -- the loop over the cookies
  unfoldable pub keep_cookies : List Cookie → Header → Header
  unfolding has_prefix
  keep_cookies [] h = h
  keep_cookies (c ∷ cs) h =
      keep_cookies cs (if has_prefix c.name cookie_name then h else add_cookie c h)

  -- the headers that the gate sets itself
  unfoldable pub set_identity : String → String → Header → Header
  set_identity identity host h = set_header "X-Forwarded-Host" host (
      set_header "X-Forwarded-Proto" "https"
        (set_header role_header "user" (set_header email_header identity h)))

  -- `header` is the outgoing header, after the hop-by-hop fields were removed.
  unfoldable pub rewrite : Gate → String → Header → Outgoing
  unfolding strip_identity set_identity
  rewrite g identity header =
      let h = set_identity identity g.host (strip_identity header) in
      let cookies = jar.read (values "Cookie" h) in
      record {
        target = g.upstream;
        host = g.host;
        header = keep_cookies cookies (delete "Cookie" h);
      }
