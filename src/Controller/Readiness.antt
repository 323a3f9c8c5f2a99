-- ===== src/Controller/Readiness.antt =====
-- evaluateInstanceReadiness, serviceHasReadyEndpoints, serviceProbeURL,
-- updateProvisioningStatus, updateReadyStatus and instanceURL.
pub mod Judging
mod Examples
use showroom_msp_chat_ui.Prelude.{
  ℕ, String, Bool, true, false, ◌&&◌, ◌||◌, not, Option, none, some, List, [], ◌∷◌, ◌==◌, ltb, eqb,
  if◌then◌else◌, length, any,
}
use Prim.Native.String.{◌++◌}
use showroom_msp_chat_ui.Controller.Objects.{ℤ, Subset, pos, negsuc, Instance}
use showroom_msp_chat_ui.Controller.Pods.{Deployment}
use showroom_msp_chat_ui.Text.{trim_space}
use showroom_msp_chat_ui.Controller.Setup.{
  Kit, Reconciler, phase_provisioning, chatui_key, chatui_name,
}
use showroom_msp_chat_ui.Controller.Effects.{
  Api, Action, ◌>>=◌, ◌>>◌, pure, attempt, current, put, fail, ask, write, update_status,
}
use showroom_msp_chat_ui.Errors.{Result, ok, err, is_not_found}
use showroom_msp_chat_ui.Controller.Probing.{run_dns_check, run_service_health_check}

-- Whether an instance is ready, with the reason and the message of its condition.
pub record Readiness : Type 0 where
  pub ready : Bool
  pub reason : String
  pub message : String

abbrev pub not_yet : String → String → Readiness
not_yet reason text = record { ready = false; reason = reason; message = text }

abbrev pub desired_replicas : Option ℤ → ℕ
desired_replicas none = 1
desired_replicas (some (pos n)) = if ltb 0 n then n else 1
desired_replicas (some (negsuc n)) = 1

-- why a Deployment is not ready: the reason, and what the message says behind its name
unfoldable pub deployment_reason : (ℕ → String) → Deployment → Option (String × String)
deployment_reason decimal d =
    let desired = desired_replicas d.replicas in
    let of_desired = λ (n : ℕ). decimal n ++ ("/" ++ decimal desired) in
    if ltb d.status.observed_generation d.meta.generation
    then some ("DeploymentProgressing", " has not observed latest generation")
    else if ltb d.status.updated_replicas desired
    then some
        ("DeploymentProgressing", " updated replicas " ++ of_desired d.status.updated_replicas)
    else if ltb d.status.ready_replicas desired
    then some ("DeploymentNotReady", " ready replicas " ++ of_desired d.status.ready_replicas)
    else if ltb d.status.available_replicas desired
    then some
        ("DeploymentNotAvailable", " available replicas " ++ of_desired d.status.available_replicas)
    else none

-- the loops over the subsets and their ports
unfoldable pub has_ready_port : List Subset → ℕ → Bool
has_ready_port [] port = false
has_ready_port (subset ∷ subsets) port =
    (not (eqb (length subset.addresses) 0) && any (λ p. eqb p port) subset.ports)
    || has_ready_port subsets port

unfoldable pub service_probe_url : String → String → String
service_probe_url namespace service_name =
    "http://" ++ (service_name ++ ("." ++ (namespace ++ ".svc.cluster.local:8080/ping")))

unfoldable pub instance_url : Reconciler → String → String
unfolding trim_space
instance_url r host =
    if trim_space host == ""
    then ""
    else (if r.public_scheme == "" then "http" else r.public_scheme) ++ ("://" ++ host)

module _ (k : Kit) (api : Api) (r : Reconciler) where
  -- whether there are ready endpoints, and the message where there are none
  abbrev pub endpoints_found : Instance → Result (List Subset) → Action (Bool × String)
  endpoints_found inst (ok subsets) =
      if has_ready_port subsets 8080
      then pure (true, "")
      else pure (
        false,
        "Service "
            ++ (k.quote (chatui_name inst)
                ++ (" has no ready endpoints on port " ++ k.decimal 8080)),
      )
  endpoints_found inst (err e) =
      if is_not_found e
      then pure (false, "Endpoints for Service " ++ (k.quote (chatui_name inst) ++ " not found"))
      else fail e

  unfoldable pub service_has_ready_endpoints : Instance → Action (Bool × String)
  unfolding has_ready_port
  service_has_ready_endpoints inst = do
    found ← attempt (ask (λ log. api.cached_endpoints log (chatui_key inst)))
    endpoints_found inst found

  abbrev pub dns_found : String → Result (Unit {0}) → Readiness
  dns_found host (err e) =
      not_yet "DNSNotReady" ("DNS not resolving for " ++ (host ++ (": " ++ k.error_text e)))
  dns_found host (ok _) = record {
    ready = true;
    reason = "Provisioned";
    message = "Chat UI is ready";
  }

  abbrev pub health_found : String → String → Result (Unit {0}) → Action Readiness
  health_found host url (err e) = pure (
      not_yet "HealthCheckFailed"
        ("Service probe failed for " ++ (url ++ (": " ++ k.error_text e))))
  health_found host url (ok _) = do
    dns ← attempt (ask (λ log. run_dns_check k api log host))
    pure (dns_found host dns)

  abbrev pub probe_service : Instance → String → Bool × String → Action Readiness
  probe_service inst host (false, text) = pure (not_yet "ServiceEndpointsMissing" text)
  probe_service inst host (true, text) = do
    let url = service_probe_url inst.meta.namespace (chatui_name inst)
    health ← attempt (ask (λ log. run_service_health_check k api log url))
    health_found host url health

  abbrev pub judge : Instance → String → Result Deployment → Action Readiness
  judge inst host (err e) =
      if is_not_found e
      then pure (
          not_yet "DeploymentNotFound"
            ("Deployment " ++ (k.quote (chatui_name inst) ++ " not found")))
      else fail e
  judge inst host (ok d) = elim (deployment_reason k.decimal d) [
    | some (reason, text) ↦
        pure (not_yet reason ("Deployment " ++ (k.quote (chatui_name inst) ++ text)))
    | none ↦ (do endpoints ← service_has_ready_endpoints inst; probe_service inst host endpoints)
  ]

  unfoldable pub evaluate_instance_readiness : String → Action Readiness
  unfolding deployment_reason service_has_ready_endpoints service_probe_url
  evaluate_instance_readiness host = do
    inst ← current
    found ← attempt (ask (λ log. api.cached_deployment log (chatui_key inst)))
    judge inst host found

  -- the instance with a phase, its URL and the Ready condition
  abbrev pub reported : Instance → String → String → String → String → String → Instance
  reported inst phase host status reason text = record inst {
    status = record (inst.status) {
      phase = phase;
      url = instance_url r host;
      observed_generation = inst.meta.generation;
      conditions = k.set_condition inst.status.conditions (record {
        type = "Ready";
        status = status;
        reason = reason;
        message = text;
        observed_generation = inst.meta.generation;
      });
    };
  }

  -- Status().Update: the answer is decoded into `inst`.
  abbrev pub update_status_to : Instance → Action (Unit {0})
  update_status_to inst = do
    put inst
    stored ← write api.send_instance (update_status inst)
    put stored

  unfoldable pub update_provisioning_status : String → String → String → Action (Unit {0})
  unfolding instance_url
  update_provisioning_status host reason text = do
    inst ← current
    update_status_to (reported inst phase_provisioning host "False" reason text)

  unfoldable pub update_ready_status : String → Action (Unit {0})
  unfolding instance_url
  update_ready_status host = do
    inst ← current
    update_status_to (reported inst "Ready" host "True" "Provisioned" "Chat UI is ready")
