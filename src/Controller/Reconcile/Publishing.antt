-- ===== src/Controller/Reconcile/Publishing.antt =====
-- What Reconcile may write of a workload and its route, and the parts that write it.
use showroom_msp_chat_ui.Prelude.{
  String, ◌≡◌, ◌⊎◌, inl, Bool, true, false, none, some, refl, ap, inr, Option, List, ◌==◌, [],
}
use showroom_msp_chat_ui.Controller.Effects.{
  Api, Write, update_instance, patch_status, update_status, create_deployment, update_deployment,
  create_service, update_service, create_ingress, update_ingress, delete_ingress, create_secret,
  delete_secret,
}
use showroom_msp_chat_ui.Controller.Effects.Logs.{
  Logs, logs, Logs-bind, Logs-write, Logs-if, Logs-pure, Logs-fail, Logs-lift, Logs-Reads,
}
use showroom_msp_chat_ui.Controller.Setup.{Kit, Reconciler, chatui_name}
use showroom_msp_chat_ui.Controller.Objects.{Instance, Ingress, Service, pos, Rule, Backend}
use showroom_msp_chat_ui.Controller.Reconcile.Quiet.{IsQuiet}
use showroom_msp_chat_ui.Controller.Workload.Hardening.{IsHardened, IsGated}
use showroom_msp_chat_ui.Controller.Ingresses.{
  managed_rules, build_desired_ingress, ingress_found, update_changed, reconcile_ingress,
  bring_up_to_date, ensure_ingress_dns_annotation,
}
use showroom_msp_chat_ui.Controller.Ingresses.Managed.{bring_up_to_date-managed, if-same}
use showroom_msp_chat_ui.Controller.Services.{service_ports, service_found, reconcile_service}
use showroom_msp_chat_ui.Errors.{Result, ok, err}
use showroom_msp_chat_ui.Controller.Readiness.{
  evaluate_instance_readiness, update_provisioning_status, update_ready_status, Readiness,
}
use showroom_msp_chat_ui.Controller.Reconcile.{report_readiness}
use showroom_msp_chat_ui.Controller.Slug.Recording.{check_hostname-Reads}
use showroom_msp_chat_ui.Controller.Readiness.Judging.{evaluate_instance_readiness_iff}

-- one rule: the whole of one host to port 8080 of one Service
abbrev pub IsRouted : Ingress → Type 0
IsRouted ing =
    (host : String) × (svc_name : String) × (ing.rules ≡ managed_rules host "/" svc_name)
    × (ing.default_backend ≡ none)
    × (ing.class_name ≡ some "traefik")

-- a Service of the type ClusterIP, named or by default, without an external name, with the one port
abbrev pub IsClusterService : Service → Type 0
IsClusterService svc =
    ((svc.type ≡ "") ⊎ (svc.type ≡ "ClusterIP"))
    × (svc.external_name ≡ "")
    × (svc.ports ≡ service_ports)

-- What is written before the readiness is reported.
abbrev pub IsPublished : String → Write → Type 0
IsPublished proxy_image (create_deployment d) = IsHardened proxy_image d.template
IsPublished proxy_image (update_deployment d) =
    (d.replicas ≡ some (pos 0)) ⊎ IsHardened proxy_image d.template
IsPublished proxy_image (create_service svc) = IsClusterService svc × (svc.external_ips ≡ [])
IsPublished proxy_image (update_service svc) = IsClusterService svc
IsPublished proxy_image (create_ingress ing) = IsRouted ing
IsPublished proxy_image (update_ingress ing) = IsRouted ing
IsPublished proxy_image (update_status _) = ⊥
IsPublished _ _ = Unit

-- The same, and any report.
abbrev pub IsGuarded : String → Write → Type 0
IsGuarded proxy_image (create_deployment d) = IsHardened proxy_image d.template
IsGuarded proxy_image (update_deployment d) =
    (d.replicas ≡ some (pos 0)) ⊎ IsHardened proxy_image d.template
IsGuarded proxy_image (create_service svc) = IsClusterService svc × (svc.external_ips ≡ [])
IsGuarded proxy_image (update_service svc) = IsClusterService svc
IsGuarded proxy_image (create_ingress ing) = IsRouted ing
IsGuarded proxy_image (update_ingress ing) = IsRouted ing
IsGuarded _ _ = Unit

pub published-IsGuarded :
    (proxy_image : String) (w : Write) → IsPublished proxy_image w → IsGuarded proxy_image w
published-IsGuarded proxy_image (update_instance inst) q = tt
published-IsGuarded proxy_image (patch_status inst) q = tt
published-IsGuarded proxy_image (update_status inst) q = tt
published-IsGuarded proxy_image (create_deployment d) q = q
published-IsGuarded proxy_image (update_deployment d) q = q
published-IsGuarded proxy_image (create_service svc) q = q
published-IsGuarded proxy_image (update_service svc) q = q
published-IsGuarded proxy_image (create_ingress ing) q = q
published-IsGuarded proxy_image (update_ingress ing) q = q
published-IsGuarded proxy_image (delete_ingress key uid version) q = tt
published-IsGuarded proxy_image (create_secret secret) q = tt
published-IsGuarded proxy_image (delete_secret key uid version) q = tt

pub quiet-IsPublished : (proxy_image : String) (w : Write) → IsQuiet w → IsPublished proxy_image w
quiet-IsPublished proxy_image (update_instance inst) q = tt
quiet-IsPublished proxy_image (patch_status inst) q = tt
quiet-IsPublished proxy_image (update_status inst) q = absurd q
quiet-IsPublished proxy_image (create_deployment d) q = absurd q
quiet-IsPublished proxy_image (update_deployment d) q = inl q
quiet-IsPublished proxy_image (create_service svc) q = absurd q
quiet-IsPublished proxy_image (update_service svc) q = absurd q
quiet-IsPublished proxy_image (create_ingress ing) q = absurd q
quiet-IsPublished proxy_image (update_ingress ing) q = absurd q
quiet-IsPublished proxy_image (delete_ingress key uid version) q = tt
quiet-IsPublished proxy_image (create_secret secret) q = tt
quiet-IsPublished proxy_image (delete_secret key uid version) q = tt

pub gated-IsPublished :
    (proxy_image : String) (w : Write) → IsGated proxy_image w → IsPublished proxy_image w
gated-IsPublished proxy_image (update_instance inst) q = tt
gated-IsPublished proxy_image (patch_status inst) q = tt
gated-IsPublished proxy_image (update_status inst) q = absurd q
gated-IsPublished proxy_image (create_deployment d) q = q
gated-IsPublished proxy_image (update_deployment d) q = q
gated-IsPublished proxy_image (create_service svc) q = absurd q
gated-IsPublished proxy_image (update_service svc) q = absurd q
gated-IsPublished proxy_image (create_ingress ing) q = absurd q
gated-IsPublished proxy_image (update_ingress ing) q = absurd q
gated-IsPublished proxy_image (delete_ingress key uid version) q = tt
gated-IsPublished proxy_image (create_secret secret) q = tt
gated-IsPublished proxy_image (delete_secret key uid version) q = tt

module _ (k : Kit) (api : Api) (r : Reconciler) where
  abbrev pub Published : Write → Type 0
  Published = IsPublished r.access_policy.proxy_image

  abbrev pub Guarded : Write → Type 0
  Guarded = IsGuarded r.access_policy.proxy_image

  abbrev routing : Ingress × Bool → List Rule × Option Backend × Option String
  routing p = (p.0.rules, p.0.default_backend, p.0.class_name)

  dns-routing :
      (ing : Ingress) (host : String)
      → routing (ensure_ingress_dns_annotation ing host) ≡ routing (ing, false)
  unfolding ensure_ingress_dns_annotation
  dns-routing ing host = if-same routing (host == "") _ _ _ refl refl

  build_desired_ingress-IsRouted :
      (inst : Instance) (host svc_name : String)
      → IsRouted (build_desired_ingress k api r inst svc_name host "/")
  unfolding build_desired_ingress
  build_desired_ingress-IsRouted inst host svc_name =
      let same = dns-routing _ host in
      (
        host,
        svc_name,
        ap (λ (t : List Rule × Option Backend × Option String). t.0) same,
        ap (λ (t : List Rule × Option Backend × Option String). t.1) same,
        ap (λ (t : List Rule × Option Backend × Option String). t.2) same,
      )

  update_changed-Logs :
      (p : Ingress × Bool) → IsRouted p.0 → Logs Published (update_changed k api r p)
  update_changed-Logs (ing, true) routed = Logs-write api.send (update_ingress ing) routed
  update_changed-Logs (ing, false) routed = Logs-pure tt

  ingress_found-Logs :
      (inst : Instance) (host : String) (found : Result Ingress)
      → Logs Published (ingress_found k api r inst host found)
  ingress_found-Logs inst host (ok ing) = Logs-if _ _ _ (Logs-fail _) (
      update_changed-Logs (bring_up_to_date r ing (chatui_name inst) host "/") (
        let m = bring_up_to_date-managed r ing (chatui_name inst) host "/" in
        (host, chatui_name inst, m.0, m.1, m.2)))
  ingress_found-Logs inst host (err e) = Logs-if _ _ _ (Logs-fail e) (
      Logs-bind _ _ (Logs-lift _) (λ meta.
        Logs-write api.send _ (build_desired_ingress-IsRouted inst host (chatui_name inst))))

  pub reconcile_ingress-Logs : (host : String) → Logs Published (reconcile_ingress k api r host)
  unfolding reconcile_ingress
  reconcile_ingress-Logs host =
      Logs-bind _ _ (Logs-Reads _ (check_hostname-Reads k api r host))
        (λ _. search (logs, ingress_found-Logs))

  service_found-Logs :
      (inst : Instance) (found : Result Service) → Logs Published (service_found k api inst found)
  service_found-Logs inst (ok svc) =
      Logs-if _ _ _ (Logs-fail _)
        (Logs-if _ _ _ (Logs-write api.send _ (inr refl, refl, refl)) (Logs-pure tt))
  service_found-Logs inst (err e) =
      Logs-if _ _ _ (Logs-fail e)
        (Logs-bind _ _ (Logs-lift _) (λ meta. Logs-write api.send _ ((inl refl, refl, refl), refl)))

  pub reconcile_service-Logs : Logs Published (reconcile_service k api)
  unfolding reconcile_service
  reconcile_service-Logs = search (logs, service_found-Logs)

  pub readiness-Logs : (host : String) → Logs Guarded (evaluate_instance_readiness k api r host)
  readiness-Logs host =
      Logs-Reads _ (record { unchanged = λ s. (evaluate_instance_readiness_iff k api r host s).1 })

  provisioning-Logs :
      (host reason text : String)
      → Logs Guarded (update_provisioning_status k api r host reason text)
  unfolding update_provisioning_status
  provisioning-Logs host reason text = search logs

  ready-Logs : (host : String) → Logs Guarded (update_ready_status k api r host)
  unfolding update_ready_status
  ready-Logs host = search logs

  pub report_readiness-Logs :
      (host : String) (found : Result Readiness)
      → Logs Guarded (report_readiness k api r host found)
  report_readiness-Logs host (ok found) = search (logs, provisioning-Logs, ready-Logs)
  report_readiness-Logs host (err e) = search logs
