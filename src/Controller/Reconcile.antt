-- ===== src/Controller/Reconcile.antt =====
-- Reconcile of chatuiinstance_controller.go: the handler, from the finalizer to the status. Tracing
-- and logging are left out.
pub mod Quiet
pub mod Preparing
pub mod Admission
pub mod Requests
pub mod Publishing
pub mod Walking
pub mod Guarding
pub mod Reporting
pub mod Deleting
pub mod Samples
mod Examples
use showroom_msp_chat_ui.Prelude.{
  ℕ, zero, suc, String, Bool, true, false, not, none, some, List, [], ◌∷◌, ◌==◌, if◌then◌else◌,
}
use mathlib.Core.List.{◌++◌}
use showroom_msp_chat_ui.Controller.Effects.{
  ◌>>=◌, ◌>>◌, Api, Action, Answer, attempt, pure, ask, write, current, put, after, finished,
  failed, error_of, update_instance,
}
use showroom_msp_chat_ui.Controller.Setup.{
  Kit, Reconciler, provisioning_requeue_after, phase_provisioning, phase_error,
  hostname_recheck_after,
}
use showroom_msp_chat_ui.Controller.Objects.{Instance, Key, Secret, ℤ, pos, ltz, negsuc}
use showroom_msp_chat_ui.Controller.Access.{AccessBundle, prepare_access}
use showroom_msp_chat_ui.Controller.Readiness.{
  Readiness, update_provisioning_status, update_ready_status, evaluate_instance_readiness,
}
use showroom_msp_chat_ui.Errors.{
  Result, Error, ok, err, join, is, wrapped, message, deployment_not_owned, access_cutover,
  is_not_found,
}
use showroom_msp_chat_ui.HostnamePolicy.{mem}
use showroom_msp_chat_ui.Controller.Services.{reconcile_service}
use showroom_msp_chat_ui.Controller.Policies.{
  update_image_policy_status, resolve_image, stop_unapproved_deployment,
}
use showroom_msp_chat_ui.Controller.Denials.{
  deny_access, stop_for_hostname_failure, reject_image, reject_replicas,
}
use showroom_msp_chat_ui.Text.{trim_space}
use showroom_msp_chat_ui.Controller.Routes.{withdraw_access}
use showroom_msp_chat_ui.Controller.Ingresses.{reconcile_ingress}
use showroom_msp_chat_ui.Controller.Workload.Rollout.{reconcile_deployment}
use showroom_msp_chat_ui.Controller.Checksum.{compute_secret_checksum}
use showroom_msp_chat_ui.Controller.Slug.{selected_instance_host}

abbrev pub finalizer_name : String
finalizer_name = "ui.privatellms.msp/chatuiinstance-finalizer"

abbrev pub has_finalizer : Instance → Bool
has_finalizer inst = mem finalizer_name inst.meta.finalizers

unfoldable pub without_finalizer : List String → List String
without_finalizer [] = []
without_finalizer (f ∷ fs) =
    let rest = without_finalizer fs in if f == finalizer_name then rest else f ∷ rest

abbrev pub with_finalizers : Instance → List String → Instance
with_finalizers inst fs = record inst { meta = record (inst.meta) { finalizers = fs } }

-- 0 and less stand for one replica
abbrev pub replicas_of : ℤ → ℕ
replicas_of (pos zero) = 1
replicas_of (pos (suc n)) = suc n
replicas_of (negsuc n) = 1

-- the key of the backend's credentials
abbrev pub credentials_key : Instance → Key
credentials_key inst = record {
  namespace = inst.meta.namespace;
  name = trim_space inst.spec.credentials_secret;
}

module _ (k : Kit) (api : Api) (r : Reconciler) where
  -- Update of the instance, whose answer is decoded into `inst`
  abbrev pub update_finalizers : List String → Action (Unit {0})
  update_finalizers fs = do
    inst ← current
    put (with_finalizers inst fs)
    stored ← write api.send_instance (update_instance (with_finalizers inst fs))
    put stored

  unfoldable pub finalize : Action Answer
  unfolding without_finalizer
  finalize = do
    inst ← current
    if has_finalizer inst
        then (do
          e ← attempt (update_finalizers (without_finalizer inst.meta.finalizers))
          pure (after 0 (error_of e)))
        else pure finished

  abbrev pub add_finalizer : Instance → Action Answer
  add_finalizer inst = do
    e ← attempt (update_finalizers (inst.meta.finalizers ++ finalizer_name ∷ []))
    pure (elim e [
      | ok _ ↦ record { requeue = true; requeue_after = 0; error = none }
      | err _ ↦ after 3 none
    ])

  -- status and answer, by what the readiness checks found
  abbrev pub report_readiness : String → Result Readiness → Action Answer
  report_readiness host (err e) = pure (failed e)
  report_readiness host (ok found) =
      if not found.ready
      then (do
        e ← attempt (update_provisioning_status k api r host found.reason found.message)
        pure (elim e [ ok _ ↦ after provisioning_requeue_after none | err f ↦ failed f ]))
      else (do
        e ← attempt (update_ready_status k api r host)
        pure (elim e [ ok _ ↦ after hostname_recheck_after none | err f ↦ failed f ]))

  abbrev pub ingress_done : String → Result (Unit {0}) → Action Answer
  ingress_done host (err e) = stop_for_hostname_failure k api e
  ingress_done host (ok _) = do
    found ← attempt (evaluate_instance_readiness k api r host)
    report_readiness host found

  abbrev pub service_done : String → Result (Unit {0}) → Action Answer
  service_done host (err e) = deny_access k api e
  service_done host (ok _) = do
    route ← attempt (reconcile_ingress k api r host)
    ingress_done host route

  -- from the Service on
  abbrev pub publish : String → Action Answer
  publish host = do service ← attempt (reconcile_service k api); service_done host service

  abbrev pub workload_failed : Error → Action Answer
  workload_failed cause =
      if is access_cutover cause
      then (do
        e ← attempt (
            update_image_policy_status k api phase_provisioning "AccessMigration"
              "Waiting for prior pods to stop before access migration")
        pure (after provisioning_requeue_after (error_of e)))
      else deny_access k api cause

  abbrev pub workload_done : String → Result (Unit {0}) → Action Answer
  workload_done host (err e) = workload_failed e
  workload_done host (ok _) = publish host

  -- `secret` is the answer for the backend's credentials.
  abbrev pub roll_out : String → String → AccessBundle → Result Secret → Action Answer
  roll_out image host access (err e) =
      deny_access k api (wrapped "backend credentials unavailable" e)
  roll_out image host access (ok secret) = do
    inst ← current
    workload ← attempt (
        reconcile_deployment k api r inst (record {
          replicas = replicas_of inst.spec.replicas;
          image = image;
          checksum = compute_secret_checksum k.sha256 secret;
          access = access;
        }))
    workload_done host workload

  abbrev pub read_credentials : String → String → AccessBundle → Action Answer
  read_credentials image host access = do
    inst ← current
    if trim_space inst.spec.credentials_secret == ""
        then deny_access k api (message "backend secret name is not set")
        else (do
          secret ← attempt (ask (λ log. api.cached_secret log (credentials_key inst)))
          roll_out image host access secret)

  abbrev pub guarded : String → String → AccessBundle → Action Answer
  guarded image host access = do
    inst ← current
    if not (has_finalizer inst) then add_finalizer inst else read_credentials image host access

  abbrev pub access_done : String → String → Result AccessBundle → Action Answer
  access_done image host (err e) = deny_access k api e
  access_done image host (ok access) = guarded image host access

  abbrev pub secure : String → Result String → Action Answer
  secure image (err e) = stop_for_hostname_failure k api e
  secure image (ok host) = do
    access ← attempt (prepare_access k api r host)
    access_done image host access

  -- from the check of the replicas on
  abbrev pub route : String → Action Answer
  route image = do
    inst ← current
    if ltz 1 inst.spec.replicas
        then reject_replicas k api
        else (do host ← attempt (selected_instance_host k api r); secure image host)

  -- the reason and the message for a Deployment that could not be checked
  abbrev pub image_reason : Error → String × String
  image_reason cause =
      if is deployment_not_owned cause
      then ("ImagePolicyError", "The named Deployment is not controlled by this ChatUIInstance")
      else ("ImageCheckFailed", "The Deployment image could not be verified")

  abbrev pub image_unchecked : Error → Action Answer
  image_unchecked cause = do
    withdrawal ← attempt (withdraw_access k api)
    status ←
        attempt (
          update_image_policy_status k api phase_error (image_reason cause).0
            (image_reason cause).1)
    pure (after 0 (join (join (some cause) (error_of withdrawal)) (error_of status)))

  abbrev pub image_migrates : Action Answer
  image_migrates = do
    withdrawal ← attempt (withdraw_access k api)
    status ← attempt (
        update_image_policy_status k api phase_provisioning "ImageMigration"
          "Waiting for Deployment scale-down before using the supported image")
    pure (after provisioning_requeue_after (join (error_of withdrawal) (error_of status)))

  abbrev pub stopping_found : String → Result Bool → Action Answer
  stopping_found image (err e) = image_unchecked e
  stopping_found image (ok stopping) = if stopping then image_migrates else route image

  abbrev pub admit : Result String → Action Answer
  admit (err e) = reject_image k api (k.error_text e)
  admit (ok image) = do
    stopping ← attempt (stop_unapproved_deployment k api false)
    stopping_found image stopping

  abbrev pub started : Instance → Action Answer
  started inst = do
    put inst
    if inst.meta.deleting then finalize else admit (resolve_image inst.spec.image)

  -- getInstance with what Reconcile makes of its answer
  abbrev pub instance_found : Result Instance → Action Answer
  instance_found (err e) = pure (if is_not_found e then finished else failed e)
  instance_found (ok inst) = started inst

  unfoldable pub reconcile : Key → Action Answer
  reconcile key = do found ← attempt (ask (λ log. api.get_instance log key)); instance_found found
