-- ===== src/Controller/Readiness/Examples.antt =====
-- The theorem on evaluateInstanceReadiness at one instance that is ready.
use showroom_msp_chat_ui.Prelude.{◌≡◌, refl, true}
use showroom_msp_chat_ui.Controller.Samples.{kit, run, reconciler, ready_api}
use showroom_msp_chat_ui.Controller.Effects.{◌>>=◌, attempt}
use showroom_msp_chat_ui.Controller.Readiness.{
  evaluate_instance_readiness, deployment_reason, service_has_ready_endpoints, has_ready_port,
}
use showroom_msp_chat_ui.Controller.Readiness.Judging.{IsReady, evaluate_instance_readiness_iff}
use showroom_msp_chat_ui.Errors.{ok}
use showroom_msp_chat_ui.Controller.Probing.{run_service_health_check, run_dns_check}

ready_now :
    (evaluate_instance_readiness kit ready_api reconciler "old.example.org" run).0
    ≡ ok (record { ready = true; reason = "Provisioned"; message = "Chat UI is ready" })
unfolding evaluate_instance_readiness attempt ◌>>=◌ deployment_reason service_has_ready_endpoints
    has_ready_port run_service_health_check run_dns_check
ready_now = refl

ready_example : IsReady kit ready_api reconciler "old.example.org" run
ready_example =
    (evaluate_instance_readiness_iff kit ready_api reconciler "old.example.org" run).0.0
      (rw ready_now refl)
