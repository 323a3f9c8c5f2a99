-- ===== src/Controller/Reconcile/Quiet.antt =====
-- The parts of Reconcile that publish nothing: every refusal, the choice of the hostname and the
-- preparation of the access Secrets.
use showroom_msp_chat_ui.Prelude.{◌≡◌, some, ℕ, String, Bool, Option, none}
use showroom_msp_chat_ui.Controller.Effects.{
  Api, Write, update_deployment, update_status, create_deployment, create_service, update_service,
  create_ingress, update_ingress,
}
use showroom_msp_chat_ui.Controller.Effects.Logs.{Logs, logs}
use showroom_msp_chat_ui.Controller.Routes.{withdraw_access}
use showroom_msp_chat_ui.Controller.Routes.Sending.{withdraw_access-Logs}
use showroom_msp_chat_ui.Controller.Setup.{Kit}
use showroom_msp_chat_ui.Controller.Objects.{pos, Instance}
use showroom_msp_chat_ui.Errors.{Result, ok, err, Error}
use showroom_msp_chat_ui.Controller.Pods.{Deployment}
use showroom_msp_chat_ui.Controller.Policies.{
  stop_unapproved_deployment, patch, update_image_policy_status, stop_owned, stop_found,
}
use showroom_msp_chat_ui.Controller.Denials.{
  hostname_failure, stop_for_hostname_failure, reject_image, deny_access, reject_replicas,
  report_known, report, refuse,
}

-- Writes after which nothing new runs or is reachable: all but those of a Service, of an Ingress
-- other than its deletion, of a Deployment that is not scaled to zero, and of a status by Update.
abbrev pub IsQuiet : Write → Type 0
IsQuiet (update_deployment d) = d.replicas ≡ some (pos 0)
IsQuiet (update_status _) = ⊥
IsQuiet (create_deployment _) = ⊥
IsQuiet (create_service _) = ⊥
IsQuiet (update_service _) = ⊥
IsQuiet (create_ingress _) = ⊥
IsQuiet (update_ingress _) = ⊥
IsQuiet _ = Unit

module _ (k : Kit) (api : Api) where
  pub withdrawal-Logs : Logs IsQuiet (withdraw_access k api)
  withdrawal-Logs = withdraw_access-Logs k api IsQuiet (λ key uid version. tt)

  stop_owned-Logs :
      (inst : Instance) (force : Bool) (d : Deployment)
      → Logs IsQuiet (stop_owned k api inst force d)
  stop_owned-Logs inst force d = search logs

  stop_found-Logs :
      (inst : Instance) (force : Bool) (r : Result Deployment)
      → Logs IsQuiet (stop_found k api inst force r)
  stop_found-Logs inst force (ok d) = stop_owned-Logs inst force d
  stop_found-Logs inst force (err e) = search logs

  pub stop-Logs : (force : Bool) → Logs IsQuiet (stop_unapproved_deployment k api force)
  unfolding stop_unapproved_deployment
  stop-Logs force = search (logs, stop_found-Logs)

  pub patch-Logs : (inst : Instance) → Logs IsQuiet (patch k api inst)
  unfolding patch
  patch-Logs inst = search logs

  pub status-Logs :
      (phase reason text : String)
      → Logs IsQuiet (update_image_policy_status k api phase reason text)
  unfolding update_image_policy_status
  status-Logs phase reason text = search (logs, patch-Logs)

  report_known-Logs :
      (inst : Instance) (cause : Error) (reason : String × String)
      → Logs IsQuiet (report_known k api inst cause reason)
  report_known-Logs inst cause (reason, text) = search (logs, patch-Logs)

  report-Logs :
      (inst : Instance) (cause : Error) (reason : Option (String × String))
      → Logs IsQuiet (report k api inst cause reason)
  report-Logs inst cause none = search (logs, status-Logs)
  report-Logs inst cause (some reason) = report_known-Logs inst cause reason

  hostname_failure-Logs : (cause : Error) → Logs IsQuiet (hostname_failure k api cause)
  unfolding hostname_failure
  hostname_failure-Logs cause = search (logs, report-Logs)

  pub stop_for_hostname_failure-Logs :
      (cause : Error) → Logs IsQuiet (stop_for_hostname_failure k api cause)
  unfolding stop_for_hostname_failure
  stop_for_hostname_failure-Logs cause =
      search (logs, withdrawal-Logs, stop-Logs, hostname_failure-Logs)

  refuse-Logs :
      (seconds : ℕ) (cause : Option Error) (reason text : String)
      → Logs IsQuiet (refuse k api seconds cause reason text)
  refuse-Logs seconds cause reason text = search (logs, withdrawal-Logs, stop-Logs, status-Logs)

  pub reject_image-Logs : (text : String) → Logs IsQuiet (reject_image k api text)
  unfolding reject_image
  reject_image-Logs text = refuse-Logs _ none _ _

  pub deny_access-Logs : (cause : Error) → Logs IsQuiet (deny_access k api cause)
  unfolding deny_access
  deny_access-Logs cause = refuse-Logs _ (some cause) _ _

  pub reject_replicas-Logs : Logs IsQuiet (reject_replicas k api)
  unfolding reject_replicas
  reject_replicas-Logs = refuse-Logs _ none _ _
