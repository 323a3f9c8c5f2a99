-- ===== src/Controller/Ingresses/Updates.antt =====
-- When reconcileIngress sends an update.
use showroom_msp_chat_ui.Prelude.{
  String, ◌≡◌, refl, ◌≢◌, inl, inr, Bool, true, false, ◌||◌, [], ◌∷◌, arith, Option-cases,
}
use showroom_msp_chat_ui.Controller.Ingresses.{
  bring_up_to_date, apply_extra, apply_extra_ingress_annotations, is_https_scheme,
  ensure_ingress_annotations, desired_entry_points,
}
use showroom_msp_chat_ui.Dictionary.{Map, lookup}
use showroom_msp_chat_ui.Controller.Setup.{Reconciler}
use showroom_msp_chat_ui.Controller.Objects.{Ingress}

or_true : (a b c d e f : Bool) → b ≡ true → a || b || c || d || e || f ≡ true
or_true a b c d e f h = ground arith

apply_extra-true :
    (extra annotations : Map String) → (apply_extra extra true (annotations, true)).1 ≡ true
unfolding apply_extra
apply_extra-true [] annotations = refl
apply_extra-true ((key, value) ∷ extra) annotations = elim (Option-cases (lookup key annotations)) [
  | inl e ↦ rw (apply_extra, e) (apply_extra-true extra _)
  | inr (now, e) ↦ rw (apply_extra, e) (apply_extra-true extra _)
]

apply_extra-updates :
    (extra annotations : Map String)
    → extra ≢ []
    → (apply_extra extra true (annotations, false)).1 ≡ true
unfolding apply_extra
apply_extra-updates [] annotations some_extra = absurd (some_extra refl)
apply_extra-updates ((key, value) ∷ extra) annotations some_extra =
    elim (Option-cases (lookup key annotations)) [
      | inl e ↦ rw (apply_extra, e) (apply_extra-true extra _)
      | inr (now, e) ↦ rw (apply_extra, e) (apply_extra-true extra _)
    ]

updates_once :
    (r : Reconciler) (ing : Ingress) (svc_name host path_prefix : String)
    → r.extra_ingress_annotations ≢ []
    → (bring_up_to_date r ing svc_name host path_prefix).1 ≡ true
unfolding bring_up_to_date apply_extra_ingress_annotations
updates_once r ing svc_name host path_prefix some_extra =
    let is_https = is_https_scheme r in
    let first = ensure_ingress_annotations ing (desired_entry_points is_https) is_https in
    or_true first.1 _ _ _ _ _
      (apply_extra-updates r.extra_ingress_annotations first.0.meta.annotations some_extra)

-- Where extra annotations are configured, an Ingress is reported as changed, and so updated,
-- whatever it holds, also when it was just brought up to date.
pub bring_up_to_date-updates :
    (r : Reconciler) (ing : Ingress) (svc_name host path_prefix : String)
    → r.extra_ingress_annotations ≢ []
    → ((bring_up_to_date r ing svc_name host path_prefix).1 ≡ true)
      × ((bring_up_to_date r
            (bring_up_to_date r ing svc_name host path_prefix).0
            svc_name
            host
            path_prefix).1
          ≡ true)
bring_up_to_date-updates r ing svc_name host path_prefix some_extra = (
  updates_once r ing svc_name host path_prefix some_extra,
  updates_once r _ svc_name host path_prefix some_extra,
)
