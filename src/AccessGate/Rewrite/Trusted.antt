-- ===== src/AccessGate/Rewrite/Trusted.antt =====
-- The application sees the gate's identity headers and no caller's.
use showroom_msp_chat_ui.Prelude.{
  String, ◌≡◌, refl, ◌∙◌, inl, inr, Bool, false, ◌&&◌, ◌||◌, none, [], ◌∷◌, arith, ◌==◌,
  if◌then◌else◌, Bool-cases, All, sym, ◌≢◌, Option, some, List, eq_refl, is_some, ==-true, ne-==,
}
use showroom_msp_chat_ui.AccessGate.Header.{
  Header, strip_names, canonical, is_identity, delete, strip_identity,
}
use showroom_msp_chat_ui.Dictionary.{lookup, lookup-remove, lookup-insert}
use showroom_msp_chat_ui.AccessGate.Rewrite.{keep_cookies, rewrite, CookieJar, Cookie, add_cookie}
use showroom_msp_chat_ui.AccessGate.{Gate, role_header, email_header, cookie_name}
use showroom_msp_chat_ui.Text.{has_prefix}

-- net/http keeps a header's names canonical.
abbrev pub IsCanonical : Header → Type 0
IsCanonical = All (λ f. canonical f.0 ≡ f.0)

abbrev names_in : Header → String → Bool
names_in [] k = false
names_in ((name, _) ∷ names) k = (is_identity name && name == k) || names_in names k

lookup-strip_names :
    (names h : Header) (k : String)
    → IsCanonical names
    → lookup k (strip_names names h) ≡ (if names_in names k then none else lookup k h)
unfolding strip_names
lookup-strip_names [] h k _ = refl
lookup-strip_names ((name, vs) ∷ names) h k (c, cs) = elim (Bool-cases (is_identity name)) [
  | inl bad ↦
      rw bad (lookup-strip_names names (delete name h) k cs ∙ rw (lookup-remove, c) (ground arith))
  | inr fine ↦ rw fine (lookup-strip_names names h k cs)
]

names_in-lookup : (h : Header) (k : String) → names_in h k ≡ (is_identity k && is_some (lookup k h))
unfolding lookup
names_in-lookup [] k = ground arith
names_in-lookup ((name, vs) ∷ h) k = elim (Bool-cases (name == k)) [
  | inl same ↦ rw (==-true same, eq_refl k) (ground (arith, names_in-lookup h k))
  | inr other ↦ rw other (ground (arith, names_in-lookup h k))
]

-- After stripIdentity exactly the identity names are gone.
lookup-strip_identity :
    (h : Header) (k : String)
    → IsCanonical h
    → lookup k (strip_identity h) ≡ (if is_identity k then none else lookup k h)
unfolding strip_identity
lookup-strip_identity h k c = ground (arith, lookup-strip_names h h k c, names_in-lookup h k)

cookie_canonical : canonical "Cookie" ≡ "Cookie"
unfolding canonical
cookie_canonical = refl

lookup-keep_cookies :
    (jar : CookieJar) (cs : List Cookie) (h : Header) (k : String)
    → "Cookie" == k ≡ false
    → lookup k (keep_cookies jar cs h) ≡ lookup k h
unfolding keep_cookies
lookup-keep_cookies jar [] h k ne = refl
lookup-keep_cookies jar (c ∷ cs) h k ne = elim (Bool-cases (has_prefix c.name cookie_name)) [
  | inl own ↦ rw own (lookup-keep_cookies jar cs h k ne)
  | inr other ↦ rw other (
      lookup-keep_cookies jar cs (add_cookie jar c h) k ne
      ∙ unfold add_cookie in rw (lookup-insert, cookie_canonical, ne))
]

-- What the application finds under a name, apart from its cookies: the gate's four headers, nothing
-- under any other identity name, and the caller's values elsewhere.
abbrev pub trusted : Gate → String → Header → String → Option (List String)
trusted g identity header k =
    if "X-Forwarded-Host" == k
    then some (g.host ∷ [])
    else if "X-Forwarded-Proto" == k
    then some ("https" ∷ [])
    else if "X-Chatui-Role" == k
    then some ("user" ∷ [])
    else if "X-Chatui-Email" == k
    then some (identity ∷ [])
    else if is_identity k
    then none
    else lookup k header

own_canonical :
    (canonical "X-Forwarded-Host" ≡ "X-Forwarded-Host")
    × (canonical "X-Forwarded-Proto" ≡ "X-Forwarded-Proto")
    × (canonical role_header ≡ "X-Chatui-Role")
    × (canonical email_header ≡ "X-Chatui-Email")
unfolding canonical
own_canonical = (refl, refl, refl, refl)

-- For a request whose header names are canonical, the outgoing request goes to the gate's
-- upstream under the gate's host, and has under each name but Cookie exactly the trusted values:
-- the gate's own four headers, no other identity header, and the caller's values under every
-- other name.
pub rewrite-trusted :
    (jar : CookieJar) (g : Gate) (identity : String) (header : Header) (k : String)
    → IsCanonical header
    → k ≢ "Cookie"
    → (lookup k (rewrite jar g identity header).header ≡ trusted g identity header k)
      × ((rewrite jar g identity header).host ≡ g.host)
      × ((rewrite jar g identity header).target ≡ g.upstream)
unfolding rewrite
rewrite-trusted jar g identity header k c ne =
    let (c1, c2, c3, c4) = own_canonical in
    let other = ne-== (λ (e : "Cookie" ≡ k). ne (sym e)) in
    (
      lookup-keep_cookies jar _ _ k other
          ∙ (rw (lookup-remove, cookie_canonical, other)
              (simp (lookup-insert, c1, c2, c3, c4, lookup-strip_identity header k c))),
      refl,
      refl,
    )
