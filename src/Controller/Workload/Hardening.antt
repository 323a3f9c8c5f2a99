-- ===== src/Controller/Workload/Hardening.antt =====
-- The pods that the reconciler lets run: whatever the existing Deployment holds, the application
-- stands behind the gate.
use mathlib.Core.List.{◌++◌}
use showroom_msp_chat_ui.AccessPolicy.{oauth_image}
use showroom_msp_chat_ui.Controller.Access.{oauth_arguments}
use showroom_msp_chat_ui.Prelude.{
  decide-true, ℕ, String, ◌≡◌, refl, true, false, some, List, [], ◌∷◌, map, All, ◌⊎◌, inl, Option,
  none, sym, inr, arith,
}
use showroom_msp_chat_ui.Controller.Effects.{
  Api, Write, delete_ingress, create_deployment, update_deployment,
}
use showroom_msp_chat_ui.Controller.Setup.{Kit, Reconciler}
use showroom_msp_chat_ui.Controller.Objects.{Instance, pos, supported_image}
use showroom_msp_chat_ui.Controller.Pods.{
  Selector, Container, PodTemplate, SecurityContext, Port, Deployment, PodTemplate-discrete,
}
use showroom_msp_chat_ui.Controller.Workload.Template.{managed_access_template}
use showroom_msp_chat_ui.Controller.Workload.Rollout.{
  Rollout, desired_deployment, update_workload, needs_cutover, reconcile_deployment,
  deployment_found, has_replicas,
}
use showroom_msp_chat_ui.Controller.Workload.Gated.{app_security_context, access_security_context}
use showroom_msp_chat_ui.Controller.Cutover.{wait_for_access_cutover, matching_pods, stop_or_settle}
use showroom_msp_chat_ui.Controller.Effects.Logs.{
  Logs, logs, Logs-split, Logs-bind, Logs-if, Logs-attempt, Logs-fail, Logs-ask, Logs-write,
  Logs-lift, Logs-pure,
}
use showroom_msp_chat_ui.Controller.Routes.Sending.{withdraw_access-Logs}
use showroom_msp_chat_ui.Errors.{Result, ok, err}
use mathlib.Core.Path.{subst}

-- no privilege escalation, not root, and no capabilities
abbrev pub IsConfined : Container → Type 0
IsConfined c =
    (context : SecurityContext) × (c.security_context ≡ some context)
    × (context.allow_privilege_escalation ≡ some false)
    × (context.run_as_non_root ≡ some true)
    × (context.drop ≡ "ALL" ∷ [])

-- what a container is and does: its name, its image, what it runs, and its open ports
abbrev pub duty : Container → String × String × List String × List ℕ
duty c = (c.name, c.image, c.command ++ c.args, map (λ (p : Port). p.container_port) c.ports)

-- the application of the supported image, which listens on the loopback address only
abbrev pub app_duty : String × String × List String × List ℕ
app_duty = (
  "open-webui",
  supported_image,
  "python" ∷ "-m" ∷ "uvicorn" ∷ "chatui_guard:app" ∷ "--app-dir=/etc/chat-ui-guard"
      ∷ "--host=127.0.0.1" ∷ "--port=8081" ∷ "--workers=1" ∷ "--forwarded-allow-ips=127.0.0.1" ∷ [],
  [],
)

-- the access gate of the configured image
abbrev pub gate_duty : String → String × String × List String × List ℕ
gate_duty proxy_image = (
  "instance-access",
  proxy_image,
  "/access-proxy" ∷ "--config=/etc/chat-ui-access/gate.json" ∷ [],
  8083 ∷ [],
)

-- OAuth2 Proxy of the pinned image, for one public URL
abbrev pub oauth_duty : String → String × String × List String × List ℕ
oauth_duty public_url = ("oauth2-proxy", oauth_image, oauth_arguments public_url, 8080 ∷ [])

-- Exactly the three containers, all confined, and nothing of the node's shared.
pub record IsHardened (proxy_image : String) (t : PodTemplate) : Type 0 where
  pub public_url : String
  pub staffed :
      map duty t.spec.containers ≡ app_duty ∷ gate_duty proxy_image ∷ oauth_duty public_url ∷ []
  pub confined : All IsConfined t.spec.containers
  pub no_init : t.spec.init_containers ≡ []
  pub no_token : t.spec.automount_service_account_token ≡ some false
  pub no_host_network : t.spec.host_network ≡ false
  pub no_host_pid : t.spec.host_pid ≡ false
  pub no_host_ipc : t.spec.host_ipc ≡ false

module _ (k : Kit) (api : Api) (r : Reconciler) where
  pub managed_access_template-IsHardened :
      (existing : PodTemplate) (inst : Instance) (o : Rollout)
      → o.image ≡ supported_image
      → IsHardened r.access_policy.proxy_image
          (managed_access_template existing (desired_deployment k api r inst o).template)
  unfolding managed_access_template desired_deployment
  managed_access_template-IsHardened existing inst o fixed = record {
    public_url = o.access.public_url;
    staffed = rw fixed refl;
    confined = (
      (app_security_context, refl, refl, refl, refl),
      (
        (access_security_context, refl, refl, refl, refl),
        ((access_security_context, refl, refl, refl, refl), tt),
      ),
    );
    no_init = refl;
    no_token = refl;
    no_host_network = refl;
    no_host_pid = refl;
    no_host_ipc = refl;
  }

-- The writes that leave only gated pods: an Ingress's deletion, and a Deployment that is scaled to
-- zero or has a hardened template.
abbrev pub IsGated : String → Write → Type 0
IsGated proxy_image (delete_ingress _ _ _) = Unit
IsGated proxy_image (create_deployment d) = IsHardened proxy_image d.template
IsGated proxy_image (update_deployment d) =
    (d.replicas ≡ some (pos 0)) ⊎ IsHardened proxy_image d.template
IsGated _ _ = ⊥

module _ (k : Kit) (api : Api) (r : Reconciler) where
  abbrev Gated : Write → Type 0
  Gated = IsGated r.access_policy.proxy_image

  matching_pods-Logs :
      (inst : Instance) (selector : Option Selector)
      → Logs Gated (matching_pods k api inst selector)
  matching_pods-Logs inst none = search logs
  matching_pods-Logs inst (some selector) = search logs

  stop_or_settle-Logs :
      (inst : Instance) (d : Deployment) → Logs Gated (stop_or_settle k api inst d)
  stop_or_settle-Logs inst d = search (logs, matching_pods-Logs, inl)

  cutover-Logs :
      (inst : Instance) (existing : Deployment)
      → Logs Gated (wait_for_access_cutover k api inst existing)
  unfolding wait_for_access_cutover
  cutover-Logs inst existing =
      search (logs, withdraw_access-Logs k api Gated (λ key uid v. tt), stop_or_settle-Logs)

  desired-IsHardened :
      (inst : Instance) (o : Rollout)
      → o.image ≡ supported_image
      → IsHardened r.access_policy.proxy_image (desired_deployment k api r inst o).template
  unfolding desired_deployment
  desired-IsHardened inst o fixed = record {
    public_url = o.access.public_url;
    staffed = rw fixed refl;
    confined = (
      (app_security_context, refl, refl, refl, refl),
      (
        (access_security_context, refl, refl, refl, refl),
        ((access_security_context, refl, refl, refl, refl), tt),
      ),
    );
    no_init = refl;
    no_token = refl;
    no_host_network = refl;
    no_host_pid = refl;
    no_host_ipc = refl;
  }

  same_template :
      (existing : Deployment) (template : PodTemplate)
      → needs_cutover k api r existing template ≡ false
      → existing.template ≡ template
  same_template existing template settled =
      decide-true (PodTemplate-discrete existing.template template) (ground arith)

  update_workload-Logs :
      (inst : Instance) (o : Rollout) (existing : Deployment)
      → o.image ≡ supported_image
      → Logs Gated
          (update_workload k api r inst o.replicas existing (desired_deployment k api r inst o))
  update_workload-Logs inst o existing fixed =
      let desired = desired_deployment k api r inst o in
      let hardened = managed_access_template-IsHardened k api r existing.template inst o fixed in
      Logs-split
        (needs_cutover k api r existing
          (managed_access_template existing.template desired.template))
        _ _
        (λ differs.
          Logs-bind _ _ (cutover-Logs inst existing)
            (λ waiting. Logs-if waiting _ _ (Logs-fail _) (Logs-write api.send _ (inr hardened))))
        (λ settled. Logs-if (has_replicas k api r existing.replicas o.replicas) _ _ (Logs-pure tt) (
          Logs-write api.send _ (
            inr (
              subst (IsHardened r.access_policy.proxy_image)
                (sym (same_template existing _ settled)) hardened))))

  deployment_found-Logs :
      (inst : Instance) (o : Rollout) (found : Result Deployment)
      → o.image ≡ supported_image
      → Logs Gated (deployment_found k api r inst o found)
  deployment_found-Logs inst o (ok existing) fixed =
      Logs-if _ _ _ (Logs-fail _) (update_workload-Logs inst o existing fixed)
  deployment_found-Logs inst o (err e) fixed = Logs-if _ _ _ (Logs-fail e) (
      Logs-bind _ _ (Logs-lift _) (λ meta. Logs-write api.send _ (desired-IsHardened inst o fixed)))

  -- reconcileDeployment sends nothing else for the supported image, whatever the API
  -- server answers.
  pub reconcile_deployment-Logs :
      (inst : Instance) (o : Rollout)
      → o.image ≡ supported_image
      → Logs (IsGated r.access_policy.proxy_image) (reconcile_deployment k api r inst o)
  unfolding reconcile_deployment
  reconcile_deployment-Logs inst o fixed =
      Logs-bind _ _ (Logs-attempt _ (Logs-ask _))
        (λ found. deployment_found-Logs inst o found fixed)
