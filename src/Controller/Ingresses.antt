-- ===== src/Controller/Ingresses.antt =====
-- reconcileIngress of chatuiinstance_controller.go, and the functions that bring an Ingress to its
-- desired form; each answers with the Ingress and whether it changed something.
pub mod Managed
pub mod Updates
use showroom_msp_chat_ui.Prelude.{
  String, Bool, true, false, ◌&&◌, ◌||◌, not, Option, none, some, List, [], ◌∷◌, ◌==◌,
  if◌then◌else◌, is_some,
}
use showroom_msp_chat_ui.Controller.Objects.{Ingress, Rule, Tls, Rules-discrete, Instance}
use showroom_msp_chat_ui.Dictionary.{Map, insert, value_of, has, remove, lookup}
use showroom_msp_chat_ui.Text.{trim_space, equal_fold}
use showroom_msp_chat_ui.Controller.Setup.{Reconciler, Kit, chatui_name, owns_ingress, chatui_key}
use mathlib.Core.Bool.{decide}
use showroom_msp_chat_ui.Controller.Effects.{
  Api, Action, write, ◌>>=◌, ◌>>◌, update_ingress, lift, pure, current, create_ingress, fail,
  attempt, ask,
}
use showroom_msp_chat_ui.Controller.Services.{ui_labels}
use showroom_msp_chat_ui.Controller.Routes.{check_hostname}
use showroom_msp_chat_ui.Controller.Sessions.{new_meta}
use showroom_msp_chat_ui.Errors.{Result, err, is_not_found, ok, sentinel, ingress_not_owned}

abbrev pub entry_points_key : String
entry_points_key = "traefik.ingress.kubernetes.io/router.entrypoints"

abbrev pub tls_key : String
tls_key = "traefik.ingress.kubernetes.io/router.tls"

abbrev pub dns_key : String
dns_key = "dns.gardener.cloud/dnsnames"

unfoldable pub desired_entry_points : Bool → String
desired_entry_points is_https = if is_https then "websecure,web" else "web"

-- with other annotations
abbrev pub annotate : Ingress → Map String → Ingress
annotate ing annotations = record ing { meta = record (ing.meta) { annotations = annotations } }

abbrev pub ensure_annotation : String → String → Map String → Map String × Bool
ensure_annotation key value annotations =
    if not (value_of key annotations == value)
    then (insert key value annotations, true)
    else (annotations, false)

-- the part of ensureIngressAnnotations about TLS
abbrev pub ensure_tls_annotation : Bool → Map String → Map String × Bool
ensure_tls_annotation is_https annotations =
    if is_https
    then ensure_annotation tls_key "true" annotations
    else if has tls_key annotations
    then (remove tls_key annotations, true)
    else (annotations, false)

unfoldable pub ensure_ingress_annotations : Ingress → String → Bool → Ingress × Bool
unfolding insert remove lookup
ensure_ingress_annotations ing desired_entry is_https =
    let (a, u) = ensure_annotation entry_points_key desired_entry ing.meta.annotations in
    let (b, w) = ensure_tls_annotation is_https a in (annotate ing b, u || w)

-- the loop over the extra annotations; `override` is kept although both of its values write the same
unfoldable pub apply_extra : Map String → Bool → Map String × Bool → Map String × Bool
apply_extra [] override state = state
apply_extra ((k, v) ∷ extra) override (annotations, updated) =
    apply_extra extra override (elim (lookup k annotations) [
      | none ↦ (insert k v annotations, true)
      | some now ↦
          if override
          then (insert k v annotations, true)
          else if not (now == v)
          then (insert k v annotations, true)
          else (annotations, updated)
    ])

unfoldable pub apply_extra_ingress_annotations : Reconciler → Ingress → Bool → Ingress × Bool
unfolding apply_extra insert lookup
apply_extra_ingress_annotations r ing override =
    let (a, u) = apply_extra r.extra_ingress_annotations override (ing.meta.annotations, false) in
    (annotate ing a, u)

unfoldable pub ensure_ingress_dns_annotation : Ingress → String → Ingress × Bool
unfolding insert lookup
ensure_ingress_dns_annotation ing host =
    if host == ""
    then (ing, false)
    else let (a, u) = ensure_annotation dns_key host ing.meta.annotations in (annotate ing a, u)

abbrev pub is_class : Option String → Bool
is_class none = false
is_class (some name) = name == "traefik"

unfoldable pub ensure_ingress_class : Ingress → Ingress × Bool
ensure_ingress_class ing =
    if not (is_class ing.class_name)
    then (record ing { class_name = some "traefik" }, true)
    else (ing, false)

abbrev pub managed_rules : String → String → String → List Rule
managed_rules host path_prefix svc_name =
    record {
      host = host;
      paths = some (
          record {
            path = path_prefix;
            path_type = some "Prefix";
            backend = record {
              service = some (record { name = svc_name; port_name = ""; port_number = 8080 });
              resource = none;
            };
          }
          ∷ []);
    }
    ∷ []

unfoldable pub ensure_ingress_http_rule : Ingress → String → String → String → Ingress × Bool
ensure_ingress_http_rule ing host path_prefix svc_name =
    let rules = managed_rules host path_prefix svc_name in
    if decide (Rules-discrete ing.rules rules) && not (is_some ing.default_backend)
    then (ing, false)
    else (record ing { rules = rules; default_backend = none }, true)

abbrev pub has_tls : List Tls → String → String → Bool
has_tls [] secret host = false
has_tls (entry ∷ _) secret host =
    entry.secret_name == secret && (elim entry.hosts [ [] ↦ false | h ∷ _ ↦ h == host ])

abbrev pub tls_for : String → String → List Tls
tls_for secret host = record { hosts = host ∷ []; secret_name = secret } ∷ []

unfoldable pub ensure_ingress_tls : Reconciler → Ingress → String → Bool → Ingress × Bool
unfolding trim_space
ensure_ingress_tls r ing host is_https =
    let desired = trim_space r.tls_secret_name in
    if not is_https || desired == ""
    then (ing, false)
    else if not (has_tls ing.tls desired host)
    then (record ing { tls = tls_for desired host }, true)
    else (ing, false)

abbrev pub is_https_scheme : Reconciler → Bool
is_https_scheme r = equal_fold r.public_scheme "https"

-- the steps of reconcileIngress on an Ingress that exists
unfoldable pub bring_up_to_date : Reconciler → Ingress → String → String → String → Ingress × Bool
unfolding equal_fold desired_entry_points ensure_ingress_annotations apply_extra_ingress_annotations
    ensure_ingress_dns_annotation ensure_ingress_class ensure_ingress_http_rule ensure_ingress_tls
bring_up_to_date r ing0 svc_name host path_prefix =
    let is_https = is_https_scheme r in
    let (ing1, u1) = ensure_ingress_annotations ing0 (desired_entry_points is_https) is_https in
    let (ing2, u2) = apply_extra_ingress_annotations r ing1 true in
    let (ing3, u3) = ensure_ingress_dns_annotation ing2 host in
    let (ing4, u4) = ensure_ingress_class ing3 in
    let (ing5, u5) = ensure_ingress_http_rule ing4 host path_prefix svc_name in
    let (ing6, u6) = ensure_ingress_tls r ing5 host is_https in
    (ing6, u1 || u2 || u3 || u4 || u5 || u6)

module _ (k : Kit) (api : Api) (r : Reconciler) where
  abbrev pub desired_tls : String → List Tls
  desired_tls host =
      if not (is_https_scheme r)
      then []
      else if trim_space r.tls_secret_name == ""
      then []
      else tls_for (trim_space r.tls_secret_name) host

  unfoldable pub build_desired_ingress : Instance → String → String → String → Ingress
  unfolding equal_fold desired_entry_points apply_extra_ingress_annotations
      ensure_ingress_dns_annotation ui_labels trim_space
  build_desired_ingress inst svc_name host path_prefix =
      let entry = desired_entry_points (is_https_scheme r) in
      let ingress : Ingress = record {
        meta = record (new_meta k api inst svc_name) {
          labels = ui_labels inst.meta.name;
          annotations = (entry_points_key, entry) ∷ [];
        };
        class_name = some "traefik";
        default_backend = none;
        rules = managed_rules host path_prefix svc_name;
        tls = desired_tls host;
      } in
      let (extra, _) = apply_extra_ingress_annotations r ingress false in
      let (named, _) = ensure_ingress_dns_annotation extra host in named

  abbrev pub create_ingress_for : Instance → String → Action (Unit {0})
  create_ingress_for inst host = do
    let ing = build_desired_ingress inst (chatui_name inst) host "/"
    meta ← lift (k.set_controller inst ing.meta)
    write api.send (create_ingress (record ing { meta = meta }))

  abbrev pub update_changed : Ingress × Bool → Action (Unit {0})
  update_changed (ing, true) = write api.send (update_ingress ing)
  update_changed (ing, false) = pure tt

  abbrev pub ingress_found : Instance → String → Result Ingress → Action (Unit {0})
  ingress_found inst host (err e) =
      if not (is_not_found e) then fail e else create_ingress_for inst host
  ingress_found inst host (ok ing) =
      if not (owns_ingress inst ing)
      then fail (sentinel ingress_not_owned)
      else update_changed (bring_up_to_date r ing (chatui_name inst) host "/")

  unfoldable pub reconcile_ingress : String → Action (Unit {0})
  unfolding check_hostname build_desired_ingress bring_up_to_date owns_ingress
  reconcile_ingress host = do
    check_hostname k api host
    inst ← current
    found ← attempt (ask (λ log. api.get_ingress log (chatui_key inst)))
    ingress_found inst host found
