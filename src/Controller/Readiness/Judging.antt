-- ===== src/Controller/Readiness/Judging.antt =====
-- When evaluateInstanceReadiness finds an instance ready.
use showroom_msp_chat_ui.Prelude.{
  ℕ, ◌≤◌, String, ◌≡◌, ◌≢◌, ◌↔◌, ◌⊎◌, true, not, none, List, [], ◌∷◌, arith, eqb, length, any,
  Listed, refl, inl, inr, Bool-cases, sym, ◌∙◌, Option-cases, Bool, false,
}
use showroom_msp_chat_ui.Controller.Effects.{◌>>=◌, Api, Run, attempt}
use showroom_msp_chat_ui.Controller.Setup.{Kit, Reconciler, chatui_key, chatui_name}
use showroom_msp_chat_ui.Controller.Objects.{Subset}
use showroom_msp_chat_ui.Controller.Pods.{Deployment}
use showroom_msp_chat_ui.Errors.{Result, ok, err, is_not_found}
use showroom_msp_chat_ui.Controller.Readiness.{
  Readiness, desired_replicas, deployment_reason, has_ready_port, service_probe_url, dns_found,
  health_found, service_has_ready_endpoints, probe_service, judge, evaluate_instance_readiness,
  endpoints_found,
}
use showroom_msp_chat_ui.Controller.Effects.Reads.{Reads, reads, Reads-bind, Reads-pure}
use showroom_msp_chat_ui.Controller.Probing.{
  IsHealthy, run_dns_check, run_service_health_check, run_service_health_check_iff, IsResolved,
  run_dns_check_iff,
}

-- the rollout is done: observed, and as many replicas updated, ready and available as desired
pub record IsRolledOut (d : Deployment) : Type 0 where
  pub observed : d.meta.generation ≤ d.status.observed_generation
  pub updated : desired_replicas d.replicas ≤ d.status.updated_replicas
  pub ready : desired_replicas d.replicas ≤ d.status.ready_replicas
  pub available : desired_replicas d.replicas ≤ d.status.available_replicas

-- an address behind the port
abbrev pub Serves : ℕ → Subset → Type 0
Serves port subset = (subset.addresses ≢ []) × Listed port subset.ports

abbrev pub Some : {A : Type 0} → (A → Type 0) → List A → Type 0
Some P [] = ⊥
Some P (x ∷ xs) = P x ⊎ Some P xs

port-Listed : (port : ℕ) (ports : List ℕ) → (any (λ p. eqb p port) ports ≡ true) ↔ Listed port ports
port-Listed port [] = (λ h. cc, λ h. absurd h)
port-Listed port (p ∷ ports) = ground (arith, port-Listed port ports)

not_empty : (xs : List String) → (not (eqb (length xs) 0) ≡ true) ↔ (xs ≢ [])
not_empty [] = (λ h. cc, λ n. absurd (n refl))
not_empty (x ∷ xs) = (λ h e. cc, λ n. ground arith)

has_ready_port_iff :
    (port : ℕ) (subsets : List Subset)
    → (has_ready_port subsets port ≡ true) ↔ Some (Serves port) subsets
unfolding has_ready_port
has_ready_port_iff port [] = (λ h. cc, λ h. absurd h)
has_ready_port_iff port (subset ∷ subsets) = ground (
  arith,
  not_empty subset.addresses,
  port-Listed port subset.ports,
  has_ready_port_iff port subsets,
)

reason_iff :
    (decimal : ℕ → String) (d : Deployment) → (deployment_reason decimal d ≡ none) ↔ IsRolledOut d
unfolding deployment_reason
reason_iff decimal d = (λ h. ground arith, λ h. ground arith)

-- an answer that says ready
abbrev pub IsReadyAnswer : Result Readiness → Type 0
IsReadyAnswer (ok found) = found.ready ≡ true
IsReadyAnswer (err _) = ⊥

module _ (k : Kit) (api : Api) (r : Reconciler) (host : String) (s : Run) where
  abbrev probe_url : String
  probe_url = service_probe_url s.inst.meta.namespace (chatui_name s.inst)

  -- What the cache, the health check and the DNS check say of the instance.
  pub record IsReady : Type 0 where
    pub deployment : Deployment
    pub subsets : List Subset
    pub found : api.cached_deployment s.log (chatui_key s.inst) ≡ ok deployment
    pub rolled_out : IsRolledOut deployment
    pub listed : api.cached_endpoints s.log (chatui_key s.inst) ≡ ok subsets
    pub served : Some (Serves 8080) subsets
    pub healthy : IsHealthy k api s.log probe_url
    pub resolved : IsResolved k api s.log host

  resolved_iff :
      (answer : Result (Unit {0}))
      → IsReadyAnswer (ok (dns_found k api r host answer)) ↔ (answer ≡ ok tt)
  resolved_iff (ok tt) = (λ h. refl, λ h. refl)
  resolved_iff (err e) = (λ h. cc, λ h. cc)

  healthy_iff :
      (url : String) (answer : Result (Unit {0}))
      → IsReadyAnswer (health_found k api r host url answer s).0
        ↔ ((answer ≡ ok tt) × (run_dns_check k api s.log host ≡ ok tt))
  unfolding attempt ◌>>=◌
  healthy_iff url (ok tt) =
      let (f, g) = resolved_iff (run_dns_check k api s.log host) in
      (λ h. (refl, f h), λ (_, h). g h)
  healthy_iff url (err e) = (λ h. cc, λ (h, _). cc)

  served_iff :
      (listing : Result (List Subset))
      → api.cached_endpoints s.log (chatui_key s.inst) ≡ listing
      → IsReadyAnswer
          ((service_has_ready_endpoints k api r s.inst >>= probe_service k api r s.inst host) s).0
        ↔ ((subsets : List Subset) × (listing ≡ ok subsets)
            × Some (Serves 8080) subsets
            × (run_service_health_check k api s.log probe_url ≡ ok tt)
            × (run_dns_check k api s.log host ≡ ok tt))
  unfolding service_has_ready_endpoints attempt ◌>>=◌
  served_iff (ok subsets) listed = elim (Bool-cases (has_ready_port subsets 8080)) [
    | inl open_port ↦
        let (f, g) = healthy_iff probe_url (run_service_health_check k api s.log probe_url) in
        rw (listed, open_port)
          (
            λ h.
                let (healthy, resolved) = f h in
                (subsets, refl, (has_ready_port_iff 8080 subsets).0 open_port, healthy, resolved),
            λ (_, _, _, healthy, resolved). g (healthy, resolved),
          )
    | inr closed_port ↦
        rw (listed, closed_port)
          (
            λ h. cc,
            λ (others, same, some_port, _, _).
                let e = (has_ready_port_iff 8080 others).1 some_port in cc,
          )
  ]
  served_iff (err e) listed = elim (Bool-cases (is_not_found e)) [
    | inl missing ↦ rw (listed, missing) (λ h. cc, λ (_, same, _, _, _). cc)
    | inr fault ↦ rw (listed, fault) (λ h. absurd h, λ (_, same, _, _, _). cc)
  ]

  judge_iff :
      (answer : Result Deployment)
      → api.cached_deployment s.log (chatui_key s.inst) ≡ answer
      → IsReadyAnswer (judge k api r s.inst host answer s).0 ↔ IsReady
  judge_iff (ok d) found = elim (Option-cases (deployment_reason k.decimal d)) [
    | inl done ↦
        let (f, g) = served_iff (api.cached_endpoints s.log (chatui_key s.inst)) refl in
        rw (done, IsReadyAnswer, judge)
          (
            λ h.
                let (subsets, listed, served, healthy, resolved) = f h in
                record {
                  deployment = d;
                  subsets = subsets;
                  found = found;
                  rolled_out = (reason_iff k.decimal d).0 done;
                  listed = listed;
                  served = served;
                  healthy = (run_service_health_check_iff k api s.log probe_url).0 healthy;
                  resolved = (run_dns_check_iff k api s.log host).0 resolved;
                },
            λ w.
                let healthy = (run_service_health_check_iff k api s.log probe_url).1 w.healthy in
                let resolved = (run_dns_check_iff k api s.log host).1 w.resolved in
                g (w.subsets, w.listed, w.served, healthy, resolved),
          )
    | inr (reason, waits) ↦
        rw (waits, IsReadyAnswer, judge)
          (
            λ h. cc,
            λ w.
                let e = (reason_iff k.decimal w.deployment).1 w.rolled_out in
                let same = sym found ∙ w.found in cc,
          )
  ]
  judge_iff (err e) found = elim (Bool-cases (is_not_found e)) [
    | inl missing ↦ rw missing (λ h. cc, λ w. let same = sym found ∙ w.found in cc)
    | inr fault ↦ rw fault (λ h. absurd h, λ w. let same = sym found ∙ w.found in cc)
  ]

  endpoints_found-Reads :
      (listing : Result (List Subset)) → Reads (endpoints_found k api r s.inst listing)
  endpoints_found-Reads (ok subsets) = search reads
  endpoints_found-Reads (err e) = search reads

  health_found-Reads :
      (url : String) (answer : Result (Unit {0})) → Reads (health_found k api r host url answer)
  health_found-Reads url (ok _) = search reads
  health_found-Reads url (err e) = search reads

  probe_service-Reads :
      (endpoints : Bool × String) → Reads (probe_service k api r s.inst host endpoints)
  probe_service-Reads (true, text) = search (reads, health_found-Reads)
  probe_service-Reads (false, text) = search reads

  endpoints-Reads : Reads (service_has_ready_endpoints k api r s.inst)
  unfolding service_has_ready_endpoints
  endpoints-Reads = search (reads, endpoints_found-Reads)

  judge-Reads : (answer : Result Deployment) → Reads (judge k api r s.inst host answer)
  judge-Reads (ok d) = elim (Option-cases (deployment_reason k.decimal d)) [
    | inl done ↦ rw (done, judge) (Reads-bind _ _ endpoints-Reads probe_service-Reads)
    | inr (reason, waits) ↦ rw (waits, judge) (Reads-pure _)
  ]
  judge-Reads (err e) = search reads

  -- evaluateInstanceReadiness says ready exactly when the cached Deployment has observed its
  -- latest generation and has as many replicas updated, ready and available as it asks for, the
  -- cached endpoints have an address behind port 8080, the probe of the service is answered with
  -- 200 and the host has an address, or the checkers configured in their place succeed; and it
  -- sends nothing.
  pub evaluate_instance_readiness_iff :
      (IsReadyAnswer (evaluate_instance_readiness k api r host s).0 ↔ IsReady)
      × ((evaluate_instance_readiness k api r host s).1 ≡ s)
  unfolding evaluate_instance_readiness attempt ◌>>=◌
  evaluate_instance_readiness_iff = (
    judge_iff (api.cached_deployment s.log (chatui_key s.inst)) refl,
    (judge-Reads (api.cached_deployment s.log (chatui_key s.inst))).unchanged s,
  )
