-- ===== src/Controller/Denials/Safety.antt =====
-- What the refusals send, whatever the API server answers.
use showroom_msp_chat_ui.Prelude.{
  ◌≡◌, Bool, some, ℕ, String, refl, true, false, ◌||◌, not, Option, none, All, ◌&&◌, ◌==◌,
}
use showroom_msp_chat_ui.Controller.Effects.{
  ◌>>=◌, Api, Action, Write, attempt, delete_ingress, update_deployment, patch_status, Run,
}
use showroom_msp_chat_ui.Controller.Effects.Sends.{
  Sends, Sends-mono, Sends-attempt, Sends-bind, Sends-current, Sends-put, Sends-ask, Sends-if,
  Sends-write, Sends-pure, Sends-fail,
}
use showroom_msp_chat_ui.Controller.Setup.{Kit, owns_ingress, owned_by_instance}
use showroom_msp_chat_ui.Controller.Routes.{withdraw_access, deleted, withdraw_found}
use showroom_msp_chat_ui.Controller.Policies.{
  stop_unapproved_deployment, patch, update_image_policy_status, stop_owned, stop_found, withdrawn,
  runs_other_image, is_stopped,
}
use showroom_msp_chat_ui.Controller.Objects.{Instance, pos, Ingress, Status-discrete}
use showroom_msp_chat_ui.Errors.{Result, Error, ok, err, is_not_found, sentinel, ingress_not_owned}
use showroom_msp_chat_ui.Controller.Pods.{Deployment}
use showroom_msp_chat_ui.Controller.Denials.{
  hostname_failure, deny_access, report_unknown, report_known, report, refuse, reject_image,
  reject_replicas, stop_for_hostname_failure, failed_instance,
}
use mathlib.Core.Bool.{decide}

-- The writes that take an instance off the network: the deletion of an Ingress, a Deployment scaled
-- to zero, and a status without a URL.
abbrev pub IsWithdrawal : Write → Type 0
IsWithdrawal (delete_ingress _ _ _) = Unit
IsWithdrawal (update_deployment d) = d.replicas ≡ some (pos 0)
IsWithdrawal (patch_status inst) = inst.status.url ≡ ""
IsWithdrawal _ = ⊥

-- anything
abbrev Any : {A : Type 0} → A → Type 0
Any _ = Unit

module _ (k : Kit) (api : Api) where
  Sends-attempt-Any :
      {A : Type 0} (m : Action A) → Sends IsWithdrawal Any m → Sends IsWithdrawal Any (attempt m)
  Sends-attempt-Any m h =
      Sends-mono IsWithdrawal Any _ (attempt m) (Sends-attempt IsWithdrawal Any m h) (λ a q. tt)

  deleted-Sends : (r : Result (Unit {0})) → Sends IsWithdrawal Any (deleted k api r)
  deleted-Sends (ok a) = Sends-pure IsWithdrawal Any tt tt
  deleted-Sends (err e) =
      Sends-if IsWithdrawal Any (not (is_not_found e)) _ _ (λ _. Sends-fail IsWithdrawal Any e)
        (λ _. Sends-pure IsWithdrawal Any tt tt)

  withdraw_found-Sends :
      (inst : Instance) (r : Result Ingress) → Sends IsWithdrawal Any (withdraw_found k api inst r)
  withdraw_found-Sends inst (ok ing) =
      Sends-if IsWithdrawal Any (not (owns_ingress inst ing)) _ _
        (λ _. Sends-fail IsWithdrawal Any (sentinel ingress_not_owned))
        (λ _.
          Sends-bind IsWithdrawal Any Any _ _
            (Sends-attempt-Any _ (Sends-write IsWithdrawal Any api.send _ tt (λ a. tt)))
            (λ r q. deleted-Sends r))
  withdraw_found-Sends inst (err e) =
      Sends-if IsWithdrawal Any (not (is_not_found e)) _ _ (λ _. Sends-fail IsWithdrawal Any e)
        (λ _. Sends-pure IsWithdrawal Any tt tt)

  withdraw_access-Sends : Sends IsWithdrawal Any (withdraw_access k api)
  unfolding withdraw_access
  withdraw_access-Sends =
      Sends-bind IsWithdrawal Any Any _ _ (Sends-current IsWithdrawal) (λ inst q.
        Sends-bind IsWithdrawal Any Any _ _
          (Sends-attempt-Any _ (Sends-ask IsWithdrawal Any _ (λ a. tt)))
          (λ r q'. withdraw_found-Sends inst r))

  stop_owned-Sends :
      (inst : Instance) (force : Bool) (d : Deployment)
      → Sends IsWithdrawal Any (stop_owned k api inst force d)
  stop_owned-Sends inst force d =
      Sends-if IsWithdrawal Any (not (owned_by_instance d.meta inst)) _ _
        (λ _. Sends-fail IsWithdrawal Any _)
        (λ _.
          Sends-if IsWithdrawal Any (not (force || runs_other_image k api d)) _ _
            (λ _. Sends-pure IsWithdrawal Any _ tt)
            (λ _.
              Sends-if IsWithdrawal Any (not (is_stopped k api d.replicas)) _ _
                (λ _.
                  Sends-bind IsWithdrawal Any Any _ _
                    (Sends-write IsWithdrawal Any api.send _ refl (λ a. tt))
                    (λ a q. Sends-pure IsWithdrawal Any true tt))
                (λ _. Sends-pure IsWithdrawal Any _ tt)))

  stop_found-Sends :
      (inst : Instance) (force : Bool) (r : Result Deployment)
      → Sends IsWithdrawal Any (stop_found k api inst force r)
  stop_found-Sends inst force (ok d) = stop_owned-Sends inst force d
  stop_found-Sends inst force (err e) =
      Sends-if IsWithdrawal Any (is_not_found e) _ _ (λ _. Sends-pure IsWithdrawal Any false tt)
        (λ _. Sends-fail IsWithdrawal Any e)

  stop-Sends : (force : Bool) → Sends IsWithdrawal Any (stop_unapproved_deployment k api force)
  unfolding stop_unapproved_deployment
  stop-Sends force = Sends-bind IsWithdrawal Any Any _ _ (Sends-current IsWithdrawal) (λ inst q.
      Sends-bind IsWithdrawal Any Any _ _
        (Sends-attempt-Any _ (Sends-ask IsWithdrawal Any _ (λ a. tt)))
        (λ r q'. stop_found-Sends inst force r))

  patch-Sends : (inst : Instance) → inst.status.url ≡ "" → Sends IsWithdrawal Any (patch k api inst)
  unfolding patch
  patch-Sends inst h = Sends-bind IsWithdrawal Any Any _ _ (Sends-put IsWithdrawal inst) (λ a q.
      Sends-bind IsWithdrawal Any Any _ _
        (Sends-write IsWithdrawal Any api.send_instance (patch_status inst) h (λ b. tt))
        (λ stored q'. Sends-put IsWithdrawal stored))

  status-Sends :
      (phase reason text : String)
      → Sends IsWithdrawal Any (update_image_policy_status k api phase reason text)
  unfolding update_image_policy_status
  status-Sends phase reason text =
      Sends-bind IsWithdrawal Any Any _ _ (Sends-current IsWithdrawal)
        (λ inst q. patch-Sends (withdrawn k api inst phase reason text) refl)

  report_unknown-Sends :
      (inst : Instance) (cause : Error) → Sends IsWithdrawal Any (report_unknown k api inst cause)
  report_unknown-Sends inst cause =
      Sends-if IsWithdrawal Any
        (inst.status.url == "" && not (k.is_condition_true inst.status.conditions "Ready")) _ _
        (λ _. Sends-pure IsWithdrawal Any _ tt)
        (λ _.
          Sends-bind IsWithdrawal Any Any _ _ (Sends-attempt-Any _ (status-Sends _ _ _))
            (λ a q. Sends-pure IsWithdrawal Any _ tt))

  report_known-Sends :
      (inst : Instance) (cause : Error) (reason text : String)
      → Sends IsWithdrawal Any (report_known k api inst cause (reason, text))
  report_known-Sends inst cause reason text =
      Sends-if IsWithdrawal Any
        (decide (Status-discrete inst.status (failed_instance k api inst cause reason text).status))
        _ _ (λ _. Sends-pure IsWithdrawal Any _ tt)
        (λ _.
          Sends-bind IsWithdrawal Any Any _ _ (Sends-attempt-Any _ (patch-Sends _ refl))
            (λ a q. Sends-pure IsWithdrawal Any _ tt))

  report-Sends :
      (inst : Instance) (cause : Error) (reason : Option (String × String))
      → Sends IsWithdrawal Any (report k api inst cause reason)
  report-Sends inst cause none = report_unknown-Sends inst cause
  report-Sends inst cause (some (reason, text)) = report_known-Sends inst cause reason text

  hostname_failure-Sends : (cause : Error) → Sends IsWithdrawal Any (hostname_failure k api cause)
  unfolding hostname_failure
  hostname_failure-Sends cause =
      Sends-bind IsWithdrawal Any Any _ _ (Sends-current IsWithdrawal)
        (λ inst q. report-Sends inst cause _)

  -- what all refusals begin with
  after_stop-Sends :
      {A : Type 0} (f : Result (Unit {0}) → Result Bool → Action A)
      → ((a : Result (Unit {0})) (b : Result Bool) → Sends IsWithdrawal Any (f a b))
      → Sends IsWithdrawal Any (
          attempt (withdraw_access k api) >>= λ a.
          attempt (stop_unapproved_deployment k api true) >>= λ b. f a b)
  after_stop-Sends f h =
      Sends-bind IsWithdrawal Any Any _ _ (Sends-attempt-Any _ withdraw_access-Sends) (λ a q.
        Sends-bind IsWithdrawal Any Any _ _ (Sends-attempt-Any _ (stop-Sends true)) (λ b q'. h a b))

  refuse-Sends :
      (seconds : ℕ) (cause : Option Error) (reason text : String)
      → Sends IsWithdrawal Any (refuse k api seconds cause reason text)
  refuse-Sends seconds cause reason text = after_stop-Sends _ (λ a b.
      Sends-bind IsWithdrawal Any Any _ _ (Sends-attempt-Any _ (status-Sends _ _ _))
        (λ c q. Sends-pure IsWithdrawal Any _ tt))

  -- Whatever the API server answers, denyAccess, rejectImage, rejectReplicas and
  -- stopForHostnameFailure add to a log of withdrawals only withdrawals: deletions of an Ingress,
  -- Deployments scaled to zero, and statuses without a URL.
  pub refusals_only_withdraw :
      (cause : Error) (text : String) (s : Run)
      → All IsWithdrawal s.log
      → All IsWithdrawal (deny_access k api cause s).1.log
        × All IsWithdrawal (reject_image k api text s).1.log
        × All IsWithdrawal (reject_replicas k api s).1.log
        × All IsWithdrawal (stop_for_hostname_failure k api cause s).1.log
  unfolding deny_access reject_image reject_replicas stop_for_hostname_failure
  refusals_only_withdraw cause text s h = (
    (refuse-Sends _ (some cause) _ _).log s h,
    (refuse-Sends _ none _ _).log s h,
    (refuse-Sends _ none _ _).log s h,
    (after_stop-Sends _ (λ a b.
          Sends-bind IsWithdrawal Any Any _ _ (hostname_failure-Sends cause)
            (λ c q. Sends-pure IsWithdrawal Any _ tt))).log
        s h,
  )
