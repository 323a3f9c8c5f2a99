-- ===== src/Controller/Services.antt =====
-- uiLabels, copyStringMap and reconcileService of chatuiinstance_controller.go.
use showroom_msp_chat_ui.Prelude.{
  String, Bool, ◌&&◌, not, none, List, [], ◌∷◌, ℕ_discrete, ◌==◌, if◌then◌else◌,
}
use showroom_msp_chat_ui.Dictionary.{Map, insert}
use showroom_msp_chat_ui.Controller.Objects.{
  ServicePort, String-discrete, number, Instance, Service, Meta,
}
use showroom_msp_chat_ui.Controller.Setup.{Kit, owned_by_instance, chatui_name, chatui_key}
use showroom_msp_chat_ui.Controller.Effects.{
  Api, Action, ◌>>=◌, lift, current, fail, attempt, ask, write, create_service, update_service,
  pure,
}
use showroom_msp_chat_ui.Errors.{Result, err, is_not_found, ok, message}
use showroom_msp_chat_ui.Controller.Sessions.{same_map, new_meta}
use mathlib.Core.Bool.{decide}

unfoldable pub ui_labels : String → Map String
ui_labels instance_name =
    ("app.kubernetes.io/name", "open-webui") ∷ ("ui.privatellms.msp/instance", instance_name) ∷ []

unfoldable pub Ports-discrete : Discrete (List ServicePort)
Ports-discrete = hlevel (String-discrete, ℕ_discrete)

abbrev pub service_ports : List ServicePort
service_ports =
    record {
      name = "http";
      port = 8080;
      target_port = number 8080;
      protocol = "TCP";
      node_port = 0;
      app_protocol = none;
    }
    ∷ []

module _ (k : Kit) (api : Api) where
  -- the labels of the Service, and its selector
  abbrev pub service_labels : Instance → Map String
  service_labels inst =
      insert "ui.privatellms.msp/instance-uid" inst.meta.uid (ui_labels inst.meta.name)

  abbrev pub is_desired : Instance → Service → Bool
  is_desired inst svc =
      svc.type == "ClusterIP"
      && svc.external_name == ""
      && same_map svc.selector (service_labels inst)
      && decide (Ports-discrete svc.ports service_ports)

  abbrev pub new_service : Instance → Meta → Service
  new_service inst meta = record {
    meta = meta;
    type = "";
    external_name = "";
    external_ips = [];
    selector = service_labels inst;
    ports = service_ports;
    rest = "";
  }

  abbrev pub create_service_for : Instance → Action (Unit {0})
  create_service_for inst = do
    meta ← lift (
        k.set_controller inst
          (record (new_meta k api inst (chatui_name inst)) { labels = service_labels inst }))
    write api.send (create_service (new_service inst meta))

  abbrev pub service_found : Instance → Result Service → Action (Unit {0})
  service_found inst (err e) = if not (is_not_found e) then fail e else create_service_for inst
  service_found inst (ok svc) =
      if not (owned_by_instance svc.meta inst)
      then fail (message "backend Service is not owned by this instance")
      else if not (is_desired inst svc)
      then write api.send (
          update_service (record svc {
            type = "ClusterIP";
            external_name = "";
            selector = service_labels inst;
            ports = service_ports;
          }))
      else pure tt

  unfoldable pub reconcile_service : Action (Unit {0})
  unfolding ui_labels insert same_map owned_by_instance
  reconcile_service = do
    inst ← current
    found ← attempt (ask (λ log. api.get_service log (chatui_key inst)))
    service_found inst found
