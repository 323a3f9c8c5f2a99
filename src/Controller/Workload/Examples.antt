-- ===== src/Controller/Workload/Examples.antt =====
-- The theorems on the workload at one instance.
use showroom_msp_chat_ui.Prelude.{◌≡◌, refl, true}
use showroom_msp_chat_ui.Controller.Samples.{instance_of_team, kit, run, reconciler, own_deployment}
use showroom_msp_chat_ui.Controller.Workload.Samples.{rollout, settled_deployment, settled_api}
use showroom_msp_chat_ui.Controller.Setup.{owned_by_instance}
use showroom_msp_chat_ui.Controller.Workload.Rollout.{reconcile_deployment, desired_deployment}
use showroom_msp_chat_ui.Controller.Workload.Settling.{reconcile_deployment_settled}
use showroom_msp_chat_ui.Controller.Sessions.{session_secret_name}
use showroom_msp_chat_ui.Errors.{ok}

settled_owned : owned_by_instance settled_deployment.meta instance_of_team ≡ true
unfolding owned_by_instance
settled_owned = refl

settled_example :
    reconcile_deployment kit settled_api reconciler instance_of_team rollout run ≡ (ok tt, run)
unfolding desired_deployment session_secret_name
settled_example =
    reconcile_deployment_settled kit settled_api reconciler instance_of_team rollout
      settled_deployment own_deployment.template run refl settled_owned refl refl refl
