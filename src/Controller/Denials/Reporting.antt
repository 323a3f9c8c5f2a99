-- ===== src/Controller/Denials/Reporting.antt =====
-- A refusal reports to the status whether or not the route and the workload could be stopped.
use showroom_msp_chat_ui.Prelude.{
  ℕ, String, ◌≡◌, ◌≢◌, Option, none, [], ◌∷◌, refl, inl, inr, true, some, List,
}
use showroom_msp_chat_ui.Controller.Effects.{◌>>=◌, Api, Run, Answer, Log, attempt, patch_status}
use showroom_msp_chat_ui.Controller.Setup.{Kit, phase_error}
use showroom_msp_chat_ui.Controller.Denials.{refuse, deny_access, reject_image, reject_replicas}
use showroom_msp_chat_ui.Errors.{Error, ok, join, Result, Result-cases}
use showroom_msp_chat_ui.Controller.Policies.{
  update_image_policy_status, patch, withdrawn, stop_unapproved_deployment, not_ready,
}
use showroom_msp_chat_ui.Controller.Routes.{withdraw_access}
use showroom_msp_chat_ui.Controller.Objects.{Condition}

-- The last write of a log reports the error phase with a Ready condition that has a reason and a
-- text, and withdraws the URL.
abbrev pub Reports : Kit → Api → String → String → Log → Type 0
Reports k api reason text [] = ⊥
Reports k api reason text (patch_status inst ∷ _) =
    (inst.status.url ≡ "")
    × (inst.status.phase ≡ phase_error)
    × ((before : List Condition) × (inst.status.conditions
          ≡ k.set_condition before (not_ready k api inst reason text)))
Reports k api reason text (_ ∷ _) = ⊥

join-ne-none : (cause other : Option Error) → cause ≢ none → join cause other ≢ none
join-ne-none none other set = absurd (set refl)
join-ne-none (some e) none set = λ h. cc
join-ne-none (some e) (some f) set = λ h. cc

-- A refusal in a log: the status is reported last, the next run comes after a number of seconds, and
-- a cause is never lost.
abbrev pub IsRefusal : Kit → Api → String → String → ℕ → Option Error → Result Answer × Run → Type 0
IsRefusal k api reason text seconds cause (r, s) =
    Reports k api reason text s.log
    × ((a : Answer) × (r ≡ ok a) × (a.requeue_after ≡ seconds) × (cause ≢ none → a.error ≢ none))

module _ (k : Kit) (api : Api) where
  status-Reports :
      (reason text : String) (s : Run)
      → Reports k api reason text (update_image_policy_status k api phase_error reason text s).1.log
  unfolding update_image_policy_status patch ◌>>=◌
  status-Reports reason text s =
      let sent = patch_status (withdrawn k api s.inst phase_error reason text) in
      elim (Result-cases (api.send_instance s.log sent)) [
        | inl (stored, e) ↦ rw e (refl, refl, (s.inst.status.conditions, refl))
        | inr (cause, e) ↦ rw e (refl, refl, (s.inst.status.conditions, refl))
      ]

  refuse-IsRefusal :
      (seconds : ℕ) (cause : Option Error) (reason text : String) (s : Run)
      → IsRefusal k api reason text seconds cause (refuse k api seconds cause reason text s)
  unfolding attempt ◌>>=◌
  refuse-IsRefusal seconds cause reason text s = (
    status-Reports reason text
        (stop_unapproved_deployment k api true (withdraw_access k api s).1).1,
    (_, refl, refl, λ set. join-ne-none _ _ (join-ne-none _ _ (join-ne-none cause _ set))),
  )

  -- Whatever the API server answers, also where the Ingress cannot be deleted or the Deployment
  -- not be stopped: denyAccess, rejectImage and rejectReplicas each send, as their last write, a
  -- status in the error phase without a URL and with a Ready condition that has their reason, and
  -- ask for another run after 30, 0 and 30 seconds; denyAccess always returns an error.
  pub refusals_report :
      (cause : Error) (text : String) (s : Run)
      → IsRefusal k api "AccessNotConfigured"
          "Instance access configuration is unavailable; operator review is required" 30
          (some cause)
          (deny_access k api cause s)
        × IsRefusal k api "ImageNotAllowed" text 0 none (reject_image k api text s)
        × IsRefusal k api "UnsupportedReplicas"
            "Only one Chat UI replica is supported. Set spec.replicas to 1." 30 none
            (reject_replicas k api s)
  unfolding deny_access reject_image reject_replicas
  refusals_report cause text s = (
    refuse-IsRefusal 30 (some cause) _ _ s,
    refuse-IsRefusal 0 none _ text s,
    refuse-IsRefusal 30 none _ _ s,
  )
