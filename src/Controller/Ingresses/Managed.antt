-- ===== src/Controller/Ingresses/Managed.antt =====
-- What an Ingress is after reconcileIngress brought it up to date.
use showroom_msp_chat_ui.Prelude.{
  String, ◌≡◌, refl, Bool, true, false, Option, none, some, List, ◌==◌, if◌then◌else◌, ap, ◌∙◌, inl,
  inr, ◌&&◌, ◌||◌, not, arith, Bool-cases, is_some, ==-true, decide-true,
}
use showroom_msp_chat_ui.Controller.Ingresses.{
  bring_up_to_date, ensure_ingress_http_rule, ensure_ingress_tls, ensure_ingress_class,
  ensure_ingress_dns_annotation, managed_rules, is_class, is_https_scheme, has_tls,
  ensure_ingress_annotations, desired_entry_points, apply_extra_ingress_annotations,
}
use showroom_msp_chat_ui.Controller.Objects.{Ingress, Meta, Rule, Backend, Owner, Rules-discrete}
use mathlib.Core.Bool.{decide}
use showroom_msp_chat_ui.Controller.Setup.{Reconciler}
use showroom_msp_chat_ui.Text.{trim_space}

pub if-same :
    {A B : Type 0} (f : A → B) (b : Bool) (x y : A) (v : B)
    → f x ≡ v
    → f y ≡ v
    → f (if b then x else y) ≡ v
if-same f true x y v p q = p
if-same f false x y v p q = q

-- What identifies an object: its namespace, name, UID and controller.
abbrev pub identity_of_meta : Meta → String × String × String × Option Owner
identity_of_meta m = (m.namespace, m.name, m.uid, m.controller)

abbrev routes : Ingress → List Rule × Option Backend × Option String × Meta
routes ing = (ing.rules, ing.default_backend, ing.class_name, ing.meta)

tls-routes :
    (r : Reconciler) (ing : Ingress) (host : String) (is_https : Bool)
    → routes (ensure_ingress_tls r ing host is_https).0 ≡ routes ing
unfolding ensure_ingress_tls
tls-routes r ing host is_https =
    let desired = trim_space r.tls_secret_name in
    if-same (λ (p : Ingress × Bool). routes p.0) (not is_https || desired == "") _ _ (routes ing)
      refl
      (if-same (λ (p : Ingress × Bool). routes p.0) (not (has_tls ing.tls desired host)) _ _
        (routes ing) refl refl)

is_some-false : {A : Type 0} (o : Option A) → is_some o ≡ false → o ≡ none
is_some-false none h = refl
is_some-false (some a) h = cc

both_true : (a b : Bool) → a && not b ≡ true → (a ≡ true) × (b ≡ false)
both_true a b h = ground arith

http_rule-managed :
    (ing : Ingress) (host path_prefix svc_name : String)
    → routes (ensure_ingress_http_rule ing host path_prefix svc_name).0
      ≡ (managed_rules host path_prefix svc_name, none, ing.class_name, ing.meta)
unfolding ensure_ingress_http_rule
http_rule-managed ing host path_prefix svc_name =
    let rules = managed_rules host path_prefix svc_name in
    elim (Bool-cases
      (decide (Rules-discrete ing.rules rules) && not (is_some ing.default_backend))) [
        | inl h ↦
            let (d, n) = both_true (decide (Rules-discrete ing.rules rules)) _ h in
            let same : ing.rules ≡ rules = decide-true (Rules-discrete ing.rules rules) d in
            let nothing : ing.default_backend ≡ none = is_some-false ing.default_backend n in
            rw (h, same, nothing) refl
        | inr h ↦ rw h refl
      ]

is_class-some : (o : Option String) → is_class o ≡ true → o ≡ some "traefik"
is_class-some none h = cc
is_class-some (some name) h = ap some (==-true h)

class-traefik :
    (ing : Ingress)
    → ((ensure_ingress_class ing).0.class_name ≡ some "traefik")
      × ((ensure_ingress_class ing).0.meta ≡ ing.meta)
unfolding ensure_ingress_class
class-traefik ing = elim (Bool-cases (is_class ing.class_name)) [
  | inl h ↦ rw h (is_class-some ing.class_name h, refl)
  | inr h ↦ rw h (refl, refl)
]

dns-identity :
    (ing : Ingress) (host : String)
    → identity_of_meta (ensure_ingress_dns_annotation ing host).0.meta ≡ identity_of_meta ing.meta
unfolding ensure_ingress_dns_annotation
dns-identity ing host =
    if-same (λ (p : Ingress × Bool). identity_of_meta p.0.meta) (host == "") _ _ _ refl refl

-- An owned Ingress that was brought up to date has exactly the managed rule, no default backend and
-- the class traefik, and is still the same object with the same controller.
pub bring_up_to_date-managed :
    (r : Reconciler) (ing : Ingress) (svc_name host path_prefix : String)
    → ((bring_up_to_date r ing svc_name host path_prefix).0.rules
        ≡ managed_rules host path_prefix svc_name)
      × ((bring_up_to_date r ing svc_name host path_prefix).0.default_backend ≡ none)
      × ((bring_up_to_date r ing svc_name host path_prefix).0.class_name ≡ some "traefik")
      × (identity_of_meta (bring_up_to_date r ing svc_name host path_prefix).0.meta
          ≡ identity_of_meta ing.meta)
unfolding bring_up_to_date
bring_up_to_date-managed r ing svc_name host path_prefix =
    let is_https = is_https_scheme r in
    let ing1 = (ensure_ingress_annotations ing (desired_entry_points is_https) is_https).0 in
    let ing2 = (apply_extra_ingress_annotations r ing1 true).0 in
    let ing3 = (ensure_ingress_dns_annotation ing2 host).0 in
    let ing4 = (ensure_ingress_class ing3).0 in
    let ing5 = (ensure_ingress_http_rule ing4 host path_prefix svc_name).0 in
    let same = tls-routes r ing5 host is_https ∙ http_rule-managed ing4 host path_prefix svc_name in
    let (class, meta) = class-traefik ing3 in
    (
      ap (λ (t : List Rule × Option Backend × Option String × Meta). t.0) same,
      ap (λ (t : List Rule × Option Backend × Option String × Meta). t.1) same,
      ap (λ (t : List Rule × Option Backend × Option String × Meta). t.2) same ∙ class,
      ap (λ (t : List Rule × Option Backend × Option String × Meta). identity_of_meta t.3) same
          ∙ (ap identity_of_meta meta ∙ dns-identity ing2 host),
    )
