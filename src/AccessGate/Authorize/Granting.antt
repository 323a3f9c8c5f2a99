-- ===== src/AccessGate/Authorize/Granting.antt =====
-- Exactly when a token is authorized, and as whom.
use Prim.Native.String.{◌++◌}
use showroom_msp_chat_ui.Prelude.{
  ◌≤◌, ◌<◌, String, ◌≡◌, ◌≢◌, ◌↔◌, ◌⊎◌, true, false, some, List, arith, ◌==◌, eq_iff, length, any,
  Option, none, refl, inl, inr, not, Option-cases,
}
use showroom_msp_chat_ui.AccessGate.{Config, ok, err}
use showroom_msp_chat_ui.AccessGate.Authorize.{
  World, Identity, Claims, middle, is_foreign, audiences, pseudonym, oidc_identity, Response,
  SourceObject, len, is_source, permission, authorize, is_bad_token, request,
}
use showroom_msp_chat_ui.Text.{split, contains_any}
use showroom_msp_chat_ui.Errors.{Result, >>=-eq-ok, fail_if, given}
use showroom_msp_chat_ui.Dictionary.{value_of}
use showroom_msp_chat_ui.AccessPolicy.{path}

-- The token's claims and all that they must be.
pub record IsClaimed (c : Config) (w : World) (token : String) (i : Identity) : Type 0 where
  pub part : String
  pub payload : String
  pub claims : Claims
  pub auds : List String
  pub parts : middle (split b'.' token) ≡ some part
  pub decoded : w.read_payload part ≡ some payload
  pub read : w.read_claims payload ≡ some claims
  pub listed : audiences w claims.audience ≡ ok auds
  pub issuer : claims.issuer ≡ c.issuer
  pub subject : claims.subject ≢ ""
  pub audience : any (λ aud. aud == c.client_id) auds ≡ true
  pub live : w.now < claims.expires
  pub party :
      (claims.authorized_party ≡ c.client_id) ⊎ ((claims.authorized_party ≡ "") × (length auds ≤ 1))
  pub name : i.name ≡ pseudonym w claims
  pub expires : i.expires ≡ claims.expires

module _ (c : Config) (w : World) where
  is_foreign_iff :
      (claims : Claims) (auds : List String)
      → (is_foreign c w.now claims auds ≡ false) ↔ (
          (claims.issuer ≡ c.issuer)
          × (claims.subject ≢ "")
          × (any (λ aud. aud == c.client_id) auds ≡ true)
          × (w.now < claims.expires)
          × ((claims.authorized_party ≡ c.client_id)
              ⊎ ((claims.authorized_party ≡ "") × (length auds ≤ 1))))
  is_foreign_iff claims auds = ground (
    arith,
    eq_iff claims.issuer c.issuer,
    eq_iff claims.subject "",
    eq_iff claims.authorized_party c.client_id,
    eq_iff claims.authorized_party "",
  )

  given_iff {ℓ} :
      {A : Type ℓ} (o : Option A) (text : String) (a : A) → (given o text ≡ ok a) ↔ (o ≡ some a)
  given_iff o text a = ground arith

  oidc_identity_sound :
      (token : String) (i : Identity) → oidc_identity c w token ≡ ok i → IsClaimed c w token i
  unfolding oidc_identity
  oidc_identity_sound token i h =
      let (part, parts, h1) = >>=-eq-ok (given (middle (split b'.' token)) _) _ h in
      let (payload, decoded, h2) = >>=-eq-ok (given (w.read_payload part) _) _ h1 in
      let (claims, read, h3) = >>=-eq-ok (given (w.read_claims payload) _) _ h2 in
      let (auds, listed, h4) = >>=-eq-ok (audiences w claims.audience) _ h3 in
      let (_, fine, h5) = >>=-eq-ok (fail_if (is_foreign c w.now claims auds) _) _ h4 in
      let (issuer, subject, audience, live, party) =
        (is_foreign_iff claims auds).0 (ground arith) in
      record {
        part = part;
        payload = payload;
        claims = claims;
        auds = auds;
        parts = (given_iff _ _ _).0 parts;
        decoded = (given_iff _ _ _).0 decoded;
        read = (given_iff _ _ _).0 read;
        listed = listed;
        issuer = issuer;
        subject = subject;
        audience = audience;
        live = live;
        party = party;
        name = ground arith;
        expires = ground arith;
      }

  oidc_identity_complete :
      (token : String) (i : Identity) → IsClaimed c w token i → oidc_identity c w token ≡ ok i
  unfolding oidc_identity
  oidc_identity_complete token i k =
      let fine =
        (is_foreign_iff k.claims k.auds).1 (k.issuer, k.subject, k.audience, k.live, k.party) in
      rw (k.parts, k.decoded, k.read, k.listed, fine) (ground (arith, k.name, k.expires))

  -- KCP's answer and all that it must be.
  pub record IsPermitted (token : String) : Type 0 where
    pub response : Response
    pub body : String
    pub object : SourceObject
    pub token_set : token ≢ ""
    pub token_size : len token ≤ 65536
    pub token_clean : contains_any token "\r\n\t " ≡ false
    pub requested : w.request_fault (c.kcp_server ++ path c.source) ≡ none
    pub answered : w.get_object (c.kcp_server ++ path c.source) token ≡ some response
    pub status : response.status ≡ 200
    pub was_read : response.body ≡ some body
    pub size : len body ≤ 1048576
    pub decoded : w.read_object body ≡ some object
    pub api_version : object.api_version ≡ "ui.privatellms.msp/v1alpha1"
    pub kind : object.kind ≡ "ChatUIInstance"
    pub uid : object.uid ≡ c.source.uid
    pub name : object.name ≡ c.source.name
    pub namespace : object.namespace ≡ c.source.namespace
    pub cluster : value_of "kcp.io/cluster" object.annotations ≡ c.source.cluster
    pub not_deleting : object.deletion_timestamp ≡ none

  is_source_iff :
      (o : SourceObject)
      → (is_source c w o ≡ true) ↔ (
          (o.api_version ≡ "ui.privatellms.msp/v1alpha1")
          × (o.kind ≡ "ChatUIInstance")
          × (o.uid ≡ c.source.uid)
          × (o.name ≡ c.source.name)
          × (o.namespace ≡ c.source.namespace)
          × (value_of "kcp.io/cluster" o.annotations ≡ c.source.cluster)
          × (o.deletion_timestamp ≡ none))
  is_source_iff o = ground (
    arith,
    eq_iff o.api_version "ui.privatellms.msp/v1alpha1",
    eq_iff o.kind "ChatUIInstance",
    eq_iff o.uid c.source.uid,
    eq_iff o.name c.source.name,
    eq_iff o.namespace c.source.namespace,
    eq_iff (value_of "kcp.io/cluster" o.annotations) c.source.cluster,
  )

  permission_iff :
      (r : Result Response) (o : SourceObject)
      → (permission c w r ≡ ok o) ↔ (
          (res : Response) × (body : String) × (r ≡ ok res)
          × (res.status ≡ 200)
          × (res.body ≡ some body)
          × (len body ≤ 1048576)
          × (w.read_object body ≡ some o))
  permission_iff (err e) o = ground arith
  permission_iff (ok res) o = elim (Option-cases res.body) [
    | inl e ↦ ((λ h. ground arith), λ h. ground arith)
    | inr (body, e) ↦
        (λ h. (res, body, refl, ground arith, e, ground arith, ground arith), λ h. ground arith)
  ]

  authorize_sound :
      (token : String) (i : Identity)
      → authorize c w token ≡ ok i
      → IsPermitted token × IsClaimed c w token i
  unfolding authorize
  authorize_sound token i h =
      let url = c.kcp_server ++ path c.source in
      let (_, fine, h1) = >>=-eq-ok (fail_if (is_bad_token c w token) _) _ h in
      let (_, requested, h2) = >>=-eq-ok (request c w url) _ h1 in
      let (object, allowed, h3) =
        >>=-eq-ok (permission c w (given (w.get_object url token) _)) _ h2 in
      let (_, source, h4) = >>=-eq-ok (fail_if (not (is_source c w object)) _) _ h3 in
      let (res, body, answered, status, read, size, decoded) =
        (permission_iff _ object).0 allowed in
      let (version, kind, uid, name, namespace, cluster, kept) =
        (is_source_iff object).0 (ground arith) in
      (
        record {
          response = res;
          body = body;
          object = object;
          token_set = ground (arith, eq_iff token "");
          token_size = ground arith;
          token_clean = ground arith;
          requested = ground arith;
          answered = (given_iff _ _ _).0 answered;
          status = status;
          was_read = read;
          size = size;
          decoded = decoded;
          api_version = version;
          kind = kind;
          uid = uid;
          name = name;
          namespace = namespace;
          cluster = cluster;
          not_deleting = kept;
        },
        oidc_identity_sound token i h4,
      )

  authorize_complete :
      (token : String) (i : Identity)
      → IsPermitted token
      → IsClaimed c w token i
      → authorize c w token ≡ ok i
  unfolding authorize
  authorize_complete token i p k =
      let source =
        (is_source_iff p.object).1
          (p.api_version, p.kind, p.uid, p.name, p.namespace, p.cluster, p.not_deleting) in
      let fine : is_bad_token c w token ≡ false =
        ground (arith, eq_iff token "", p.token_set, p.token_size, p.token_clean) in
      let allowed =
        (permission_iff (ok p.response) p.object).1
          (p.response, p.body, refl, p.status, p.was_read, p.size, p.decoded) in
      let url = c.kcp_server ++ path c.source in
      let requested : request c w url ≡ ok tt = ground (arith, p.requested) in
      let answered =
        (given_iff (w.get_object url token) "permission check unavailable" p.response).1
          p.answered in
      rw (fine, requested) (rw answered (rw allowed (rw source (oidc_identity_complete token i k))))

  -- A token is authorized with the identity `i` exactly when it is set, short and clean, KCP answers
  -- it 200 with the configured source object, unchanged and not being deleted, and its claims name
  -- the configured issuer, a subject and this client as an audience and as authorized party (which
  -- may be left out for one audience) and have not expired; `i` is then the hash of issuer and
  -- subject, and expires with the claims.
  pub authorize_iff :
      (token : String) (i : Identity)
      → (authorize c w token ≡ ok i) ↔ (IsPermitted token × IsClaimed c w token i)
  authorize_iff token i = (authorize_sound token i, λ (p, k). authorize_complete token i p k)
