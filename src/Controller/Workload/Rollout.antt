-- ===== src/Controller/Workload/Rollout.antt =====
-- reconcileDeployment of chatuiinstance_controller.go.
use showroom_msp_chat_ui.Prelude.{
  ℕ, String, Bool, false, ◌||◌, not, Option, none, some, ◌==◌, if◌then◌else◌,
}
use showroom_msp_chat_ui.Controller.Pods.{Deployment, PodTemplate, PodTemplate-discrete}
use showroom_msp_chat_ui.Controller.Access.{AccessBundle}
use showroom_msp_chat_ui.Controller.Setup.{Kit, Reconciler, chatui_key, owned_by_instance}
use showroom_msp_chat_ui.Controller.Effects.{
  ◌>>=◌, Api, Action, pure, fail, lift, ask, write, attempt, create_deployment, update_deployment,
}
use showroom_msp_chat_ui.Errors.{
  Result, ok, err, sentinel, access_cutover, is_not_found, deployment_not_owned,
}
use showroom_msp_chat_ui.Controller.Workload.{build_deployment}
use showroom_msp_chat_ui.Controller.Objects.{Instance, ℤ, same_ℤ, pos}
use mathlib.Core.Bool.{decide}
use showroom_msp_chat_ui.Controller.Workload.Gated.{apply_access_deployment}
use showroom_msp_chat_ui.Controller.Workload.Template.{managed_access_template}
use showroom_msp_chat_ui.Controller.Services.{ui_labels}
use showroom_msp_chat_ui.Controller.Cutover.{wait_for_access_cutover}

-- The arguments of reconcileDeployment beside the instance and its labels.
pub record Rollout : Type 0 where
  pub replicas : ℕ
  pub image : String
  pub checksum : String
  pub access : AccessBundle

module _ (k : Kit) (api : Api) (r : Reconciler) where
  unfoldable pub desired_deployment : Instance → Rollout → Deployment
  unfolding build_deployment apply_access_deployment
  desired_deployment inst o =
      apply_access_deployment
        (build_deployment k api inst (ui_labels inst.meta.name) o.replicas o.image o.checksum) inst
        o.access r.access_policy.proxy_image

  abbrev pub create_workload : Instance → Deployment → Action (Unit {0})
  create_workload inst deploy = do
    meta ← lift (k.set_controller inst deploy.meta)
    write api.send (create_deployment (record deploy { meta = meta }))

  -- whether the template or the strategy differs. The templates' maps are compared as lists: the
  -- managed template keeps the order of the existing one.
  abbrev pub needs_cutover : Deployment → PodTemplate → Bool
  needs_cutover existing template =
      not (decide (PodTemplate-discrete existing.template template))
      || not (existing.strategy == "Recreate")

  abbrev pub has_replicas : Option ℤ → ℕ → Bool
  has_replicas none n = false
  has_replicas (some z) n = same_ℤ z (pos n)

  abbrev pub cut_over : Deployment → Deployment → PodTemplate → ℕ → Bool → Action (Unit {0})
  cut_over existing desired template replicas waiting =
      if waiting
      then fail (sentinel access_cutover)
      else write api.send (
          update_deployment (record existing {
            template = template;
            strategy = desired.strategy;
            replicas = some (pos replicas);
          }))

  abbrev pub update_workload : Instance → ℕ → Deployment → Deployment → Action (Unit {0})
  update_workload inst replicas existing desired =
      let template = managed_access_template existing.template desired.template in
      if needs_cutover existing template
      then (do
        waiting ← wait_for_access_cutover k api inst existing
        cut_over existing desired template replicas waiting)
      else if has_replicas existing.replicas replicas
      then pure tt
      else write api.send (update_deployment (record existing { replicas = some (pos replicas) }))

  abbrev pub deployment_found : Instance → Rollout → Result Deployment → Action (Unit {0})
  deployment_found inst o (err e) =
      if not (is_not_found e) then fail e else create_workload inst (desired_deployment inst o)
  deployment_found inst o (ok existing) =
      if not (owned_by_instance existing.meta inst)
      then fail (sentinel deployment_not_owned)
      else update_workload inst o.replicas existing (desired_deployment inst o)

  unfoldable pub reconcile_deployment : Instance → Rollout → Action (Unit {0})
  reconcile_deployment inst o = do
    found ← attempt (ask (λ log. api.get_deployment log (chatui_key inst)))
    deployment_found inst o found
