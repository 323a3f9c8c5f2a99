-- ===== src/Controller/Examples.antt =====
-- The theorems on internal/controller at one instance and one state of the cluster.
use showroom_msp_chat_ui.Controller.Samples.{
  instance_of_team, own_ingress, kit, api, run, reconciler, own_deployment, running_api,
  session_of_team, pinned_run, session_api, quiet_api, stopped_deployment,
}
use showroom_msp_chat_ui.Prelude.{◌≡◌, refl, true, false, none, some, List, [], All, ◌≢◌, ◌↔◌, ◌⊎◌}
use showroom_msp_chat_ui.Controller.Objects.{Ingress}
use showroom_msp_chat_ui.Controller.Setup.{owns_ingress, owned_by_instance}
use showroom_msp_chat_ui.Controller.Effects.{◌>>=◌, attempt}
use showroom_msp_chat_ui.Errors.{ok, message}
use showroom_msp_chat_ui.Controller.Ingresses.{managed_rules, bring_up_to_date}
use showroom_msp_chat_ui.Controller.Routes.{
  check_hostname, check_claims, claims_host, withdraw_access,
}
use showroom_msp_chat_ui.Controller.Routes.Checking.{IsOwnOrAbsent, IsHarmless, check_hostname_iff}
use showroom_msp_chat_ui.Controller.Denials.Safety.{IsWithdrawal, refusals_only_withdraw}
use showroom_msp_chat_ui.Controller.Denials.Reporting.{IsRefusal, refusals_report}
use showroom_msp_chat_ui.Controller.Denials.{
  deny_access, reject_image, reject_replicas, stop_for_hostname_failure,
}
use showroom_msp_chat_ui.Controller.Ingresses.Managed.{identity_of_meta, bring_up_to_date-managed}
use showroom_msp_chat_ui.Text.{lower, has_prefix, has_suffix, drop, count_char}
use showroom_msp_chat_ui.Controller.Ingresses.Updates.{bring_up_to_date-updates}
use showroom_msp_chat_ui.Controller.Policies.{stop_unapproved_deployment}
use showroom_msp_chat_ui.Controller.Routes.Withdrawing.{IsGone, IsOwnDeletion, withdraw_access_iff}
use showroom_msp_chat_ui.Controller.Policies.Stopping.{
  IsSettled, IsOwnStop, stop_unapproved_deployment_iff,
}
use showroom_msp_chat_ui.Controller.Sessions.{session_secret, session_secret_name}
use showroom_msp_chat_ui.Controller.Sessions.Trusting.{IsReliable, session_secret_iff}
use showroom_msp_chat_ui.Dictionary.{lookup}
use showroom_msp_chat_ui.Controller.Cutover.{
  wait_for_access_cutover, IsCutOver, wait_for_access_cutover_iff,
}
use showroom_msp_chat_ui.Controller.Routes.Claims.{IsLabelOf, claims_host_iff}

old_host-checked : (check_hostname kit api "old.example.org" run).0 ≡ ok tt
unfolding check_hostname check_claims claims_host owns_ingress attempt ◌>>=◌ lower has_prefix
    has_suffix drop count_char
old_host-checked = refl

check_hostname_iff_example :
    IsOwnOrAbsent instance_of_team (ok own_ingress)
    × ((ings : List Ingress) × (api.list_ingresses [] ≡ ok ings)
        × All (IsHarmless instance_of_team "old.example.org") ings)
check_hostname_iff_example = (check_hostname_iff kit api "old.example.org" run).0.0 old_host-checked

refusals_only_withdraw_example :
    All IsWithdrawal (deny_access kit api (message "gone") run).1.log
    × All IsWithdrawal (reject_image kit api "wrong image" run).1.log
    × All IsWithdrawal (reject_replicas kit api run).1.log
    × All IsWithdrawal (stop_for_hostname_failure kit api (message "gone") run).1.log
refusals_only_withdraw_example =
    refusals_only_withdraw kit api (message "gone") "wrong image" run tt

refusals_report_example :
    IsRefusal kit api "AccessNotConfigured"
      "Instance access configuration is unavailable; operator review is required" 30
      (some (message "gone"))
      (deny_access kit api (message "gone") run)
    × IsRefusal kit api "ImageNotAllowed" "wrong image" 0 none
        (reject_image kit api "wrong image" run)
    × IsRefusal kit api "UnsupportedReplicas"
        "Only one Chat UI replica is supported. Set spec.replicas to 1." 30 none
        (reject_replicas kit api run)
refusals_report_example = refusals_report kit api (message "gone") "wrong image" run

managed_example :
    ((bring_up_to_date reconciler own_ingress "chat-chatui" "old.example.org" "/").0.rules
      ≡ managed_rules "old.example.org" "/" "chat-chatui")
    × ((bring_up_to_date reconciler own_ingress "chat-chatui" "old.example.org"
          "/").0.default_backend
        ≡ none)
    × ((bring_up_to_date reconciler own_ingress "chat-chatui" "old.example.org" "/").0.class_name
        ≡ some "traefik")
    × (identity_of_meta
          (bring_up_to_date reconciler own_ingress "chat-chatui" "old.example.org" "/").0.meta
        ≡ identity_of_meta own_ingress.meta)
managed_example =
    bring_up_to_date-managed reconciler own_ingress "chat-chatui" "old.example.org" "/"

extra_ne_nil : reconciler.extra_ingress_annotations ≢ []
extra_ne_nil e = cc

updates_example :
    ((bring_up_to_date reconciler own_ingress "chat-chatui" "old.example.org" "/").1 ≡ true)
    × ((bring_up_to_date reconciler
          (bring_up_to_date reconciler own_ingress "chat-chatui" "old.example.org" "/").0
          "chat-chatui"
          "old.example.org"
          "/").1
        ≡ true)
updates_example =
    bring_up_to_date-updates reconciler own_ingress "chat-chatui" "old.example.org" "/" extra_ne_nil

claims_example :
    (lower "*.Example.org" ≡ lower "old.example.org")
    ⊎ ((has_prefix (lower "*.Example.org") "*." ≡ true)
        × IsLabelOf (drop 2 (lower "*.Example.org")) (lower "old.example.org"))
unfolding claims_host lower has_prefix has_suffix drop count_char
claims_example = (claims_host_iff "*.Example.org" "old.example.org").0 refl

withdraw_example :
    (((withdraw_access kit api run).0 ≡ ok tt) ↔ IsGone api run (ok own_ingress))
    × IsOwnDeletion run (ok own_ingress) (withdraw_access kit api run).1
withdraw_example = withdraw_access_iff kit api run

stop_example :
    (((stop_unapproved_deployment kit running_api true run).0 ≡ ok false)
      ↔ IsSettled kit running_api run true (ok own_deployment))
    × IsOwnStop kit running_api run true
        (ok own_deployment)
        (stop_unapproved_deployment kit running_api true run).1
stop_example = stop_unapproved_deployment_iff kit running_api true run

session_used : (session_secret kit session_api pinned_run).0 ≡ ok session_of_team
unfolding session_secret attempt ◌>>=◌ owned_by_instance lookup session_secret_name
session_used = refl

session_example :
    (session_of_team ≡ session_of_team) × IsReliable kit session_api pinned_run.inst session_of_team
session_example =
    (session_secret_iff kit session_api pinned_run session_of_team session_of_team refl).0.0
      session_used

cutover_done :
    (wait_for_access_cutover kit quiet_api instance_of_team stopped_deployment run).0 ≡ ok false
unfolding wait_for_access_cutover withdraw_access attempt ◌>>=◌
cutover_done = refl

cutover_example : IsCutOver kit quiet_api run instance_of_team stopped_deployment
cutover_example =
    (wait_for_access_cutover_iff kit quiet_api run instance_of_team stopped_deployment).0
      cutover_done
