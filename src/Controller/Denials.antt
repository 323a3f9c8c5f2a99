-- ===== src/Controller/Denials.antt =====
-- hostnameFailure of hostname_policy.go, stopForHostnameFailure of chatuiinstance_controller.go,
-- rejectImage of image_policy.go, denyAccess and rejectReplicas of access_resources.go: every refusal
-- withdraws the route, stops the workload and takes the URL out of the status.
pub mod Safety
pub mod Reporting
use showroom_msp_chat_ui.Prelude.{
  ℕ, String, Bool, true, ◌&&◌, ◌||◌, not, Option, none, some, ◌==◌, if◌then◌else◌,
}
use showroom_msp_chat_ui.Errors.{
  is, Error, legacy_unmapped, ingress_not_owned, identity, hostname_conflict, join,
}
use showroom_msp_chat_ui.Controller.Setup.{Kit, phase_error, hostname_recheck_after}
use showroom_msp_chat_ui.Controller.Effects.{
  Api, Action, Answer, pure, ◌>>=◌, failed, current, attempt, after, error_of,
}
use showroom_msp_chat_ui.Controller.Objects.{Instance, Status-discrete}
use showroom_msp_chat_ui.Controller.Routes.{withdraw_access}
use showroom_msp_chat_ui.Controller.Policies.{
  stop_unapproved_deployment, not_ready, update_image_policy_status, patch,
}
use mathlib.Core.Bool.{decide}

-- The condition's reason and message for a cause that has them.
unfoldable pub failure_reason : Error → Option (String × String)
unfolding is
failure_reason cause =
    if is legacy_unmapped cause
    then some (
      "LegacyHostnameUnmapped",
      "An operator-reviewed hostname mapping is required for this existing instance",
    )
    else if is identity cause
    then some
        ("HostnameIdentityError", "Instance identity does not match the operator hostname policy")
    else if is ingress_not_owned cause
    then some
        ("HostnameOwnershipError", "The named Ingress is not controlled by this ChatUIInstance")
    else if is hostname_conflict cause
    then some (
      "HostnameConflict",
      "Another Ingress claims the selected hostname; operator review is required",
    )
    else none

module _ (k : Kit) (api : Api) where
  abbrev pub forgets_slug : Error → Bool
  forgets_slug cause = is legacy_unmapped cause || is identity cause

  abbrev pub failed_instance : Instance → Error → String → String → Instance
  failed_instance inst cause reason text = record inst {
    status = record (inst.status) {
      slug = if forgets_slug cause then "" else inst.status.slug;
      slug_source = if forgets_slug cause then "" else inst.status.slug_source;
      phase = phase_error;
      url = "";
      observed_generation = inst.meta.generation;
      conditions = k.set_condition inst.status.conditions (not_ready k api inst reason text);
    };
  }

  abbrev pub report_unknown : Instance → Error → Action Answer
  report_unknown inst cause =
      if inst.status.url == "" && not (k.is_condition_true inst.status.conditions "Ready")
      then pure (failed cause)
      else (do
        e ← attempt (
            update_image_policy_status k api phase_error "HostnameCheckFailed"
              "Hostname ownership could not be verified")
        pure (after 0 (join (some cause) (error_of e))))

  abbrev pub report_known : Instance → Error → String × String → Action Answer
  report_known inst cause (reason, text) =
      let changed = failed_instance inst cause reason text in
      if decide (Status-discrete inst.status changed.status)
      then pure (after hostname_recheck_after none)
      else (do e ← attempt (patch k api changed); pure (after hostname_recheck_after (error_of e)))

  abbrev pub report : Instance → Error → Option (String × String) → Action Answer
  report inst cause none = report_unknown inst cause
  report inst cause (some reason) = report_known inst cause reason

  unfoldable pub hostname_failure : Error → Action Answer
  unfolding failure_reason
  hostname_failure cause = do inst ← current; report inst cause (failure_reason cause)

  abbrev pub unless_foreign : Option Error → Option Error
  unless_foreign none = none
  unless_foreign (some e) = if is ingress_not_owned e then none else some e

  unfoldable pub stop_for_hostname_failure : Error → Action Answer
  unfolding hostname_failure withdraw_access stop_unapproved_deployment
  stop_for_hostname_failure cause = do
    withdrawal ← attempt (withdraw_access k api)
    stop ← attempt (stop_unapproved_deployment k api true)
    answer ← hostname_failure cause
    pure (record answer {
      error = join (join (unless_foreign (error_of withdrawal)) (error_of stop)) answer.error;
    })

  -- what the three other refusals have in common
  abbrev pub refuse : ℕ → Option Error → String → String → Action Answer
  refuse seconds cause reason text = do
    withdrawal ← attempt (withdraw_access k api)
    stop ← attempt (stop_unapproved_deployment k api true)
    status ← attempt (update_image_policy_status k api phase_error reason text)
    pure (
        after seconds
          (join (join (join cause (error_of withdrawal)) (error_of stop)) (error_of status)))

  unfoldable pub reject_image : String → Action Answer
  unfolding withdraw_access stop_unapproved_deployment update_image_policy_status
  reject_image text = refuse 0 none "ImageNotAllowed" text

  unfoldable pub deny_access : Error → Action Answer
  unfolding withdraw_access stop_unapproved_deployment update_image_policy_status
  deny_access cause =
      refuse hostname_recheck_after (some cause) "AccessNotConfigured"
        "Instance access configuration is unavailable; operator review is required"

  unfoldable pub reject_replicas : Action Answer
  unfolding withdraw_access stop_unapproved_deployment update_image_policy_status
  reject_replicas =
      refuse hostname_recheck_after none "UnsupportedReplicas"
        "Only one Chat UI replica is supported. Set spec.replicas to 1."
