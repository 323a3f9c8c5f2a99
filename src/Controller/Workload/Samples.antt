-- ===== src/Controller/Workload/Samples.antt =====
-- A rollout, and the Deployment that it leaves.
use showroom_msp_chat_ui.Controller.Samples.{own_deployment, kit, api, reconciler, instance_of_team}
use showroom_msp_chat_ui.Controller.Workload.Rollout.{Rollout, desired_deployment}
use showroom_msp_chat_ui.Controller.Workload.Template.{managed_access_template}
use showroom_msp_chat_ui.Controller.Pods.{Deployment}
use showroom_msp_chat_ui.Controller.Objects.{supported_image}
use showroom_msp_chat_ui.Controller.Effects.{Api}
use showroom_msp_chat_ui.Errors.{ok}

abbrev pub rollout : Rollout
rollout = record {
  replicas = 1;
  image = supported_image;
  checksum = "0123456789abcdef";
  access = record {
    name = "chatui-access-1";
    session_name = "chatui-session-1";
    revision = "1";
    public_url = "https://old.example.org";
  };
}

-- the Deployment as reconcileDeployment leaves it
abbrev pub settled_deployment : Deployment
settled_deployment = record own_deployment {
  strategy = "Recreate";
  template =
      managed_access_template own_deployment.template
        (desired_deployment kit api reconciler instance_of_team rollout).template;
}

abbrev pub settled_api : Api
settled_api = record api { get_deployment = λ log key. ok settled_deployment }
