-- ===== src/Controller/Reconcile/Examples.antt =====
-- The theorems on Reconcile at an instance that passes every check, and at one that is deleted.
use showroom_msp_chat_ui.HostnamePolicy
use showroom_msp_chat_ui.AccessPolicy
use showroom_msp_chat_ui.Prelude.{String, ◌≡◌, refl, ◌⊎◌, inl, [], ◌∷◌, map, All, Listed, List}
use showroom_msp_chat_ui.Controller.Samples.{kit, run}
use showroom_msp_chat_ui.Controller.Objects.{Instance}
use showroom_msp_chat_ui.Controller.Effects.{
  ◌>>=◌, attempt, Write, update_status, create_ingress, create_service, create_deployment,
}
use showroom_msp_chat_ui.Controller.Reconcile.{reconcile}
use showroom_msp_chat_ui.Controller.Reconcile.Samples.{
  key, settled_instance, deleted_instance, backend, team_api, deleting_api, team_reconciler,
  provisioned_api,
}
use showroom_msp_chat_ui.Controller.Reconcile.Publishing.{IsGuarded}
use showroom_msp_chat_ui.Controller.Reconcile.Guarding.{reconcile-IsGuarded}
use showroom_msp_chat_ui.Controller.Reconcile.Quiet.{IsQuiet}
use showroom_msp_chat_ui.Controller.Reconcile.Admission.{IsAdmitted, reconcile-IsAdmitted}
use showroom_msp_chat_ui.Controller.Reconcile.Requests.{Reads, find_chatui_instances_for_secret_iff}
use showroom_msp_chat_ui.Controller.Reconcile.Deleting.{IsDeletion, reconcile-IsDeletion}
use showroom_msp_chat_ui.Controller.Watch.{find_chatui_instances_for_secret, requests_for}
use showroom_msp_chat_ui.Text.{trim_space, split}
use showroom_msp_chat_ui.Controller.Policies.{resolve_image, stop_unapproved_deployment}
use showroom_msp_chat_ui.Controller.Slug.{selected_instance_host}
use showroom_msp_chat_ui.Dictionary.{lookup}
use showroom_msp_chat_ui.Controller.Access.{prepare_access}
use showroom_msp_chat_ui.Controller.Workload.Rollout.{reconcile_deployment}
use showroom_msp_chat_ui.Controller.Services.{reconcile_service}
use showroom_msp_chat_ui.Controller.Ingresses.{reconcile_ingress}
use showroom_msp_chat_ui.Controller.Readiness.{
  evaluate_instance_readiness, update_provisioning_status, update_ready_status,
}
use showroom_msp_chat_ui.Controller.Reconcile.Reporting.{IsHonest, reconcile-IsHonest}
use mathlib.Core.List.{flat_map}
use showroom_msp_chat_ui.Controller.Probing.{run_service_health_check, run_dns_check}

abbrev kind : Write → String
kind (create_deployment d) = "create_deployment"
kind (create_service svc) = "create_service"
kind (create_ingress ing) = "create_ingress"
kind (update_status inst) = "update_status"
kind _ = "other"

team_published :
    map kind (reconcile kit team_api team_reconciler key run).1.log
    ≡ "update_status" ∷ "create_ingress" ∷ "create_service" ∷ "create_deployment" ∷ []
unfolding reconcile attempt ◌>>=◌ resolve_image stop_unapproved_deployment selected_instance_host
    lookup HostnamePolicy.derived_slug HostnamePolicy.first HostnamePolicy.check_labels split
    trim_space prepare_access AccessPolicy.select_from reconcile_deployment reconcile_service
    reconcile_ingress evaluate_instance_readiness update_provisioning_status
team_published = refl

team_run_example :
    All IsQuiet (reconcile kit team_api team_reconciler key run).1.log
    ⊎ IsAdmitted kit team_api team_reconciler key run
team_run_example = reconcile-IsAdmitted kit team_api team_reconciler key run tt

removal_example :
    IsDeletion kit deleting_api team_reconciler
      (record run { inst = deleted_instance })
      (reconcile kit deleting_api team_reconciler key run)
removal_example =
    reconcile-IsDeletion kit deleting_api team_reconciler key run deleted_instance refl refl

requests_example : (inst : Instance) × Listed inst (settled_instance ∷ []) × Reads backend key inst
unfolding find_chatui_instances_for_secret requests_for trim_space
requests_example =
    (find_chatui_instances_for_secret_iff backend (settled_instance ∷ []) key (refl, tt)).0
      (inl refl)

team_writes_example :
    All
      (IsGuarded team_reconciler.access_policy.proxy_image)
      (reconcile kit team_api team_reconciler key run).1.log
team_writes_example = reconcile-IsGuarded kit team_api team_reconciler key run tt

-- the phases that are reported
abbrev reports : Write → List String
reports (update_status inst) = inst.status.phase ∷ []
reports _ = []

readiness_reported :
    flat_map reports (reconcile kit provisioned_api team_reconciler key run).1.log ≡ "Ready" ∷ []
unfolding reconcile attempt ◌>>=◌ resolve_image stop_unapproved_deployment selected_instance_host
    lookup HostnamePolicy.derived_slug HostnamePolicy.first HostnamePolicy.check_labels split
    trim_space prepare_access AccessPolicy.select_from reconcile_deployment reconcile_service
    reconcile_ingress evaluate_instance_readiness update_ready_status flat_map
    run_service_health_check run_dns_check
readiness_reported = refl

team_report_example :
    IsHonest kit provisioned_api team_reconciler
      (reconcile kit provisioned_api team_reconciler key run).1.log
team_report_example = reconcile-IsHonest kit provisioned_api team_reconciler key run tt
