-- ===== src/Controller/Reconcile/Walking.antt =====
-- An invariant that the writes before the report keep, and that the report keeps, is one that
-- Reconcile keeps.
use showroom_msp_chat_ui.Controller.Policies.{resolve_image}
use showroom_msp_chat_ui.Controller.Effects.Sends.{ok_injective, err-ne-ok}
use showroom_msp_chat_ui.Prelude.{
  String, Bool, false, ◌≡◌, refl, sym, ◌==◌, ◌||◌, Bool-cases, inl, inr,
}
use showroom_msp_chat_ui.Controller.Setup.{Kit, Reconciler}
use showroom_msp_chat_ui.Controller.Effects.{Api, Run, Action}
use showroom_msp_chat_ui.Controller.Effects.Logs.{Added, Logs, Logs-mono, Logs-put}
use showroom_msp_chat_ui.Controller.Reconcile.Publishing.{
  IsPublished, reconcile_ingress-Logs, reconcile_service-Logs, quiet-IsPublished, gated-IsPublished,
}
use showroom_msp_chat_ui.Controller.Effects.Keeping.{
  Keeps, Keeps-bind, keeps, Keeps-if, Keeps-current, Keeps-attempt, Keeps-ask, Keeps-pure,
}
use showroom_msp_chat_ui.Controller.Reconcile.{
  ingress_done, route, reconcile, service_done, workload_failed, workload_done, read_credentials,
  guarded, access_done, secure, stopping_found, admit, instance_found, roll_out,
}
use showroom_msp_chat_ui.Errors.{ok, Error, Result, err}
use showroom_msp_chat_ui.Controller.Reconcile.Quiet.{
  IsQuiet, deny_access-Logs, stop_for_hostname_failure-Logs, status-Logs, reject_replicas-Logs,
  stop-Logs, reject_image-Logs,
}
use showroom_msp_chat_ui.Controller.Ingresses.{reconcile_ingress}
use showroom_msp_chat_ui.Controller.Services.{reconcile_service}
use showroom_msp_chat_ui.Controller.Objects.{Instance, Secret, Key, supported_image}
use showroom_msp_chat_ui.Controller.Access.{AccessBundle}
use showroom_msp_chat_ui.Controller.Denials.{deny_access, stop_for_hostname_failure}
use showroom_msp_chat_ui.Controller.Workload.Rollout.{Rollout, reconcile_deployment}
use showroom_msp_chat_ui.Controller.Reconcile.Admission.{
  add_finalizer-Logs, image_migrates-Logs, finalize-Logs, image_unchecked-Logs,
}
use showroom_msp_chat_ui.Controller.Reconcile.Preparing.{
  prepare_access-Logs, selected_instance_host-Logs,
}
use showroom_msp_chat_ui.Controller.Workload.Hardening.{reconcile_deployment-Logs}

-- Only the supported image is resolved.
resolve_image-fixed : (requested i : String) → resolve_image requested ≡ ok i → i ≡ supported_image
unfolding resolve_image
resolve_image-fixed requested i h =
    elim (Bool-cases (requested == "" || requested == supported_image)) [
      | inl allowed ↦ sym (ok_injective (rw allowed at h))
      | inr other ↦ absurd (err-ne-ok (rw other at h))
    ]

module _ (k : Kit) (api : Api) (r : Reconciler) {I : Run → Type 0}
    (grows : (s t : Run) → Added (IsPublished r.access_policy.proxy_image) s.log t.log → I s → I t)
    (report-Keeps : (host : String) → Keeps I (ingress_done k api r host (ok tt))) where
  published :
      {A : Type 0} (m : Action A) → Logs (IsPublished r.access_policy.proxy_image) m → Keeps I m
  published m l = record { kept = λ s h. grows s (m s).1 (l.added s) h }

  -- a part that publishes nothing
  quiet : {A : Type 0} (m : Action A) → Logs IsQuiet m → Keeps I m
  quiet m h = published m (Logs-mono _ m (quiet-IsPublished r.access_policy.proxy_image) h)

  deny-Keeps : (e : Error) → Keeps I (deny_access k api e)
  deny-Keeps e = quiet _ (deny_access-Logs k api e)

  hostname-Keeps : (e : Error) → Keeps I (stop_for_hostname_failure k api e)
  hostname-Keeps e = quiet _ (stop_for_hostname_failure-Logs k api e)

  ingress-Keeps : (host : String) → Keeps I (reconcile_ingress k api r host)
  ingress-Keeps host = published _ (reconcile_ingress-Logs k api r host)

  service-Keeps : Keeps I (reconcile_service k api)
  service-Keeps = published _ (reconcile_service-Logs k api r)

  ingress_done-Keeps :
      (host : String) (done : Result (Unit {0})) → Keeps I (ingress_done k api r host done)
  ingress_done-Keeps host (ok _) = report-Keeps host
  ingress_done-Keeps host (err e) = hostname-Keeps e

  service_done-Keeps :
      (host : String) (done : Result (Unit {0})) → Keeps I (service_done k api r host done)
  service_done-Keeps host (ok _) = search (keeps, ingress-Keeps, ingress_done-Keeps)
  service_done-Keeps host (err e) = deny-Keeps e

  workload_failed-Keeps : (e : Error) → Keeps I (workload_failed k api r e)
  workload_failed-Keeps e =
      Keeps-if _ _ _
        (Keeps-bind _ _ (Keeps-attempt _ (quiet _ (status-Logs k api _ _ _))) (λ _. Keeps-pure _))
        (deny-Keeps e)

  workload_done-Keeps :
      (host : String) (done : Result (Unit {0})) → Keeps I (workload_done k api r host done)
  workload_done-Keeps host (ok _) = search (keeps, service-Keeps, service_done-Keeps)
  workload_done-Keeps host (err e) = workload_failed-Keeps e

  rollout-Keeps :
      (inst : Instance) (o : Rollout)
      → o.image ≡ supported_image
      → Keeps I (reconcile_deployment k api r inst o)
  rollout-Keeps inst o fixed = published _ (
      Logs-mono _ _ (gated-IsPublished r.access_policy.proxy_image)
        (reconcile_deployment-Logs k api r inst o fixed))

  module _ (image : String) (fixed : image ≡ supported_image) where
    roll_out-Keeps :
        (host : String) (access : AccessBundle) (secret : Result Secret)
        → Keeps I (roll_out k api r image host access secret)
    roll_out-Keeps host access (ok secret) = search (keeps, rollout-Keeps, workload_done-Keeps)
    roll_out-Keeps host access (err e) = deny-Keeps _

    read_credentials-Keeps :
        (host : String) (access : AccessBundle)
        → Keeps I (read_credentials k api r image host access)
    read_credentials-Keeps host access = search (keeps, deny-Keeps, roll_out-Keeps) depth 9

    guarded-Keeps :
        (host : String) (access : AccessBundle) → Keeps I (guarded k api r image host access)
    guarded-Keeps host access = Keeps-bind _ _ Keeps-current (λ inst.
        Keeps-if _ _ (read_credentials k api r image host access)
          (quiet _ (add_finalizer-Logs k api r inst)) (read_credentials-Keeps host access))

    access_done-Keeps :
        (host : String) (access : Result AccessBundle)
        → Keeps I (access_done k api r image host access)
    access_done-Keeps host (ok access) = guarded-Keeps host access
    access_done-Keeps host (err e) = deny-Keeps e

    secure-Keeps : (host : Result String) → Keeps I (secure k api r image host)
    secure-Keeps (ok host) =
        Keeps-bind _ _ (Keeps-attempt _ (quiet _ (prepare_access-Logs k api r host)))
          (λ access. access_done-Keeps host access)
    secure-Keeps (err e) = hostname-Keeps e

    route-Keeps : Keeps I (route k api r image)
    route-Keeps = Keeps-bind _ _ Keeps-current (λ inst.
        Keeps-if _ _ _ (quiet _ (reject_replicas-Logs k api)) (
          Keeps-bind _ _ (Keeps-attempt _ (quiet _ (selected_instance_host-Logs k api r)))
            (λ host. secure-Keeps host)))

    stopping_found-Keeps :
        (stopping : Result Bool) → Keeps I (stopping_found k api r image stopping)
    stopping_found-Keeps (ok stopping) =
        Keeps-if stopping _ _ (quiet _ (image_migrates-Logs k api r)) route-Keeps
    stopping_found-Keeps (err e) = quiet _ (image_unchecked-Logs k api r e)

  admit-Keeps :
      (image : Result String)
      → ((i : String) → image ≡ ok i → i ≡ supported_image)
      → Keeps I (admit k api r image)
  admit-Keeps (ok image) fixed =
      Keeps-bind _ _ (Keeps-attempt _ (quiet _ (stop-Logs k api false)))
        (λ stopping. stopping_found-Keeps image (fixed image refl) stopping)
  admit-Keeps (err e) fixed = quiet _ (reject_image-Logs k api _)

  instance_found-Keeps : (found : Result Instance) → Keeps I (instance_found k api r found)
  instance_found-Keeps (ok inst) = Keeps-bind _ _ (published _ (Logs-put inst)) (λ _.
      Keeps-if _ _ _ (quiet _ (finalize-Logs k api r))
        (admit-Keeps _ (resolve_image-fixed inst.spec.image)))
  instance_found-Keeps (err e) = Keeps-pure _

  pub reconcile-Keeps : (key : Key) → Keeps I (reconcile k api r key)
  unfolding reconcile
  reconcile-Keeps key =
      Keeps-bind _ _ (Keeps-attempt _ (Keeps-ask _)) (λ found. instance_found-Keeps found)
