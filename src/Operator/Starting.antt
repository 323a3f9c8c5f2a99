-- ===== src/Operator/Starting.antt =====
-- What the operator has checked when its manager runs.
use showroom_msp_chat_ui.HostnamePolicy
use showroom_msp_chat_ui.AccessPolicy
use showroom_msp_chat_ui.Prelude.{
  String, ◌≡◌, ◌≢◌, inl, inr, Option, ◌==◌, Bool-cases, ==-false, refl, sym, ap, ◌∙◌,
}
use showroom_msp_chat_ui.HostnamePolicy.{validate_public_host, Validation, Json}
use showroom_msp_chat_ui.Controller.Setup.{Reconciler}
use showroom_msp_chat_ui.Operator.{
  stopped, broken, opened, start, main, Host, prepare, public_host, public_scheme, tls_secret_name,
  extra_annotations, load_hostname_policy, load_access_policy, proposal, Files,
}
use showroom_msp_chat_ui.Errors.{Result, ok, >>=-eq-ok, err, Error, Result-cases}
use showroom_msp_chat_ui.Controller.Watch.{setup_with_manager}
use showroom_msp_chat_ui.AccessPolicy.{Url, Decoder}
use showroom_msp_chat_ui.Controller.Effects.Sends.{err-ne-ok, ok_injective}

hostname_loaded :
    (v : Validation) (json : Json) (files : Files) (path : String) (q : HostnamePolicy.Policy)
    → load_hostname_policy v json files path ≡ ok q
    → (path ≢ "")
      × ((content : Result String) × (files path ≡ ok content)
          × (HostnamePolicy.parse v json content ≡ ok q))
unfolding load_hostname_policy
hostname_loaded v json files path q h = elim (Bool-cases (path == "")) [
  | inl empty ↦ absurd (err-ne-ok (rw empty at h))
  | inr named ↦ (==-false named, >>=-eq-ok (files path) _ (rw named at h))
]

file_opened :
    (file : Result (Result String)) (content : Result String)
    → opened file ≡ ok content
    → file ≡ ok content
file_opened (ok read) content h = h
file_opened (err e) content h = cc

access_loaded :
    (v : Validation) (parse_url : String → Option Url) (decoder : Decoder AccessPolicy.Policy)
    (files : Files) (path : String) (q : AccessPolicy.Policy)
    → load_access_policy v parse_url decoder files path ≡ ok q
    → (path ≢ "")
      × ((content : Result String) × (files path ≡ ok content)
          × (AccessPolicy.parse v parse_url decoder content ≡ ok q))
unfolding load_access_policy
access_loaded v parse_url decoder files path q h = elim (Bool-cases (path == "")) [
  | inl empty ↦ absurd (err-ne-ok (rw empty at h))
  | inr named ↦
      let (content, readable, parsed) = >>=-eq-ok (opened (files path)) _ (rw named at h) in
      (==-false named, (content, file_opened (files path) content readable, parsed))
]

stopped_injective : {q r : Reconciler} → stopped q ≡ stopped r → q ≡ r
stopped_injective e = cc

broken-ne-stopped : {q r : Reconciler} {e : Error} → ¬ (broken q e ≡ stopped r)
broken-ne-stopped w = cc

module _ {V : Type 0} (h : Host V) (r : Reconciler) where
  -- Both policies were read from the named files and parsed, the public host passed its check,
  -- every step of the manager's set-up succeeded, and the configuration is that of the flags and
  -- the environment.
  pub record IsPrepared : Type 0 where
    pub hostname_file : h.flags.hostname_policy_file ≢ ""
    pub hostname_content : Result String
    pub hostname_opened : h.files h.flags.hostname_policy_file ≡ ok hostname_content
    pub hostname_parsed :
        HostnamePolicy.parse h.validation h.json hostname_content ≡ ok r.hostname_policy
    pub access_file : h.flags.access_policy_file ≢ ""
    pub access_content : Result String
    pub access_opened : h.files h.flags.access_policy_file ≡ ok access_content
    pub access_parsed :
        AccessPolicy.parse h.validation h.parse_url h.decoder access_content ≡ ok r.access_policy
    pub made : h.manager.make ≡ ok tt
    pub checked : validate_public_host h.validation r.hostname_policy r.public_host ≡ ok tt
    pub registered : h.manager.register ≡ ok tt
    pub healthz : h.manager.add_healthz ≡ ok tt
    pub readyz : h.manager.add_readyz ≡ ok tt
    pub host_set : r.public_host ≡ public_host h.env
    pub scheme_set : r.public_scheme ≡ public_scheme h.flags h.env
    pub annotations_set : r.extra_ingress_annotations ≡ extra_annotations h.codec h.flags h.env
    pub secret_set : r.tls_secret_name ≡ tls_secret_name h.flags h.env

  setup-eq-ok :
      (hostnames : HostnamePolicy.Policy) (access : AccessPolicy.Policy)
      → setup_with_manager h.validation (proposal h hostnames access) ≡ ok r
      → (validate_public_host h.validation hostnames (public_host h.env) ≡ ok tt)
        × (r ≡ record {
          hostname_policy = hostnames;
          access_policy = access;
          public_host = public_host h.env;
          public_scheme = public_scheme h.flags h.env;
          extra_ingress_annotations = extra_annotations h.codec h.flags h.env;
          tls_secret_name = tls_secret_name h.flags h.env;
        })
  unfolding setup_with_manager proposal
  setup-eq-ok hostnames access e =
      let (_, checked, same) =
        >>=-eq-ok (validate_public_host h.validation hostnames (public_host h.env)) _ e in
      (checked, sym (ok_injective same))

  prepare-IsPrepared : prepare h ≡ ok r → IsPrepared
  unfolding prepare
  prepare-IsPrepared e =
      let (hostnames, loaded, e1) = >>=-eq-ok _ _ e in
      let (access, loaded', e2) = >>=-eq-ok _ _ e1 in
      let (_, made, e3) = >>=-eq-ok h.manager.make _ e2 in
      let (r', set, e4) = >>=-eq-ok _ _ e3 in
      let (_, registered, e5) = >>=-eq-ok h.manager.register _ e4 in
      let (_, healthz, e6) = >>=-eq-ok h.manager.add_healthz _ e5 in
      let (_, readyz, e7) = >>=-eq-ok h.manager.add_readyz _ e6 in
      let (checked, same) = setup-eq-ok hostnames access (set ∙ e7) in
      let (file, (content, readable, parsed)) = hostname_loaded _ _ _ _ hostnames loaded in
      let (file', (content', readable', parsed')) = access_loaded _ _ _ _ _ access loaded' in
      rw same (record {
        hostname_file = file;
        hostname_content = content;
        hostname_opened = readable;
        hostname_parsed = parsed;
        access_file = file';
        access_content = content';
        access_opened = readable';
        access_parsed = parsed';
        made = made;
        checked = checked;
        registered = registered;
        healthz = healthz;
        readyz = readyz;
        host_set = refl;
        scheme_set = refl;
        annotations_set = refl;
        secret_set = refl;
      })

  started : (made : Result Reconciler) → start h made ≡ stopped r → made ≡ ok r
  started (err e) w = cc
  started (ok q) w = elim (Result-cases h.manager.run) [
    | inl (_, e) ↦ ap ok (stopped_injective (rw e at w))
    | inr (_, e) ↦ absurd (broken-ne-stopped (rw e at w))
  ]

  -- Where the operator ran its manager and returned, both policies were read from the named files
  -- and parsed, the public host passed its check, every step of the set-up succeeded, and the
  -- reconciler's configuration is that of the flags and the environment.
  pub main-IsPrepared : main h ≡ stopped r → IsPrepared
  unfolding main
  main-IsPrepared ran = prepare-IsPrepared (started (prepare h) ran)
