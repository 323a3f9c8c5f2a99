-- ===== src/Controller/Reconcile/Admission.antt =====
-- What must hold before Reconcile publishes anything.
use showroom_msp_chat_ui.Prelude.{
  String, ◌≡◌, refl, ◌⊎◌, inl, inr, true, false, List, ◌==◌, All, ap, arith,
}
use showroom_msp_chat_ui.Controller.Effects.{◌>>=◌, Api, Run}
use showroom_msp_chat_ui.Controller.Effects.Outcomes.{attempt_or, if_or}
use showroom_msp_chat_ui.Controller.Effects.Logs.{Logs, logs, Logs-ask, Logs-pure, Logs-All}
use showroom_msp_chat_ui.Controller.Setup.{Kit, Reconciler}
use showroom_msp_chat_ui.Controller.Reconcile.Quiet.{
  IsQuiet, withdrawal-Logs, status-Logs, deny_access-Logs, reject_replicas-Logs, reject_image-Logs,
  stop-Logs, stop_for_hostname_failure-Logs,
}
use mathlib.Core.Path.{subst}
use showroom_msp_chat_ui.Errors.{Result, Error, ok, err}
use showroom_msp_chat_ui.Controller.Objects.{Instance, Secret, Key, ltz}
use showroom_msp_chat_ui.Text.{trim_space}
use showroom_msp_chat_ui.Controller.Reconcile.{
  has_finalizer, update_finalizers, finalize, add_finalizer, image_unchecked, image_migrates,
  guarded, read_credentials, roll_out, route, admit, started, reconcile, instance_found, secure,
  stopping_found, credentials_key,
}
use showroom_msp_chat_ui.Controller.Access.{AccessBundle, prepare_access}
use showroom_msp_chat_ui.Controller.Policies.{resolve_image, stop_unapproved_deployment}
use showroom_msp_chat_ui.Controller.Slug.{selected_instance_host}
use showroom_msp_chat_ui.Controller.Reconcile.Preparing.{
  selected_instance_host-Logs, prepare_access-Logs,
}

module _ (k : Kit) (api : Api) (r : Reconciler) where
  -- the finalizer is there, and the backend's credentials could be read
  pub record IsSupplied (s : Run) : Type 0 where
    pub finalizer : has_finalizer s.inst ≡ true
    pub named : (trim_space s.inst.spec.credentials_secret == "") ≡ false
    pub secret : Secret
    pub read : api.cached_secret s.log (credentials_key s.inst) ≡ ok secret

  -- Every check of Reconcile was passed, each in the run that the one before it left.
  pub record IsAdmitted (key : Key) (s : Run) : Type 0 where
    pub inst : Instance
    pub image : String
    pub host : String
    pub access : AccessBundle
    pub settled_run : Run
    pub routed_run : Run
    pub prepared_run : Run
    pub found : api.get_instance s.log key ≡ ok inst
    pub alive : inst.meta.deleting ≡ false
    pub allowed : resolve_image inst.spec.image ≡ ok image
    pub settled :
        stop_unapproved_deployment k api false (record s { inst = inst }) ≡ (ok false, settled_run)
    pub single : ltz 1 settled_run.inst.spec.replicas ≡ false
    pub routed : selected_instance_host k api r settled_run ≡ (ok host, routed_run)
    pub prepared : prepare_access k api r host routed_run ≡ (ok access, prepared_run)
    pub supplied : IsSupplied prepared_run

  pub update_finalizers-Logs : (fs : List String) → Logs IsQuiet (update_finalizers k api r fs)
  update_finalizers-Logs fs = search logs

  pub finalize-Logs : Logs IsQuiet (finalize k api r)
  unfolding finalize
  finalize-Logs = search (logs, update_finalizers-Logs)

  pub add_finalizer-Logs : (inst : Instance) → Logs IsQuiet (add_finalizer k api r inst)
  add_finalizer-Logs inst = search (logs, update_finalizers-Logs)

  pub image_unchecked-Logs : (cause : Error) → Logs IsQuiet (image_unchecked k api r cause)
  image_unchecked-Logs cause = search (logs, withdrawal-Logs, status-Logs) depth 9

  pub image_migrates-Logs : Logs IsQuiet (image_migrates k api r)
  image_migrates-Logs = search (logs, withdrawal-Logs, status-Logs) depth 9

  module _ (X : Type 0) where
    guarded_or :
        (image host : String) (access : AccessBundle) (s : Run)
        → All IsQuiet s.log
        → (IsSupplied s → X)
        → All IsQuiet (guarded k api r image host access s).1.log ⊎ X
    unfolding ◌>>=◌
    guarded_or image host access s h x =
        if_or IsQuiet X _ _ (read_credentials k api r image host access) s
          (add_finalizer-Logs s.inst) h
          (λ finalizer. if_or IsQuiet X _ _ _ s (deny_access-Logs k api _) h (λ named.
            attempt_or IsQuiet X _ (roll_out k api r image host access) s
              (Logs-ask (λ log. api.cached_secret log (credentials_key s.inst))) h
              (λ e. deny_access-Logs k api _)
              (λ secret s1 read q. inr (
                x (record {
                  finalizer = ground arith;
                  named = named;
                  secret = secret;
                  read = ap (λ p. p.0) read;
                })))))

  module _ (key : Key) (s : Run) where
    -- the checks of the route and of the access, in the run that the check of the Deployment left
    route_or :
        (image : String) (s1 : Run)
        → All IsQuiet s1.log
        → ((host : String) (access : AccessBundle) (s2 s3 : Run)
            → ltz 1 s1.inst.spec.replicas ≡ false
            → selected_instance_host k api r s1 ≡ (ok host, s2)
            → prepare_access k api r host s2 ≡ (ok access, s3)
            → IsSupplied s3
            → IsAdmitted key s)
        → All IsQuiet (route k api r image s1).1.log ⊎ IsAdmitted key s
    unfolding ◌>>=◌
    route_or image s1 h x =
        if_or IsQuiet (IsAdmitted key s) _ _ _ s1 (reject_replicas-Logs k api) h (λ single.
          attempt_or IsQuiet (IsAdmitted key s) _ (secure k api r image) s1
            (selected_instance_host-Logs k api r) h (λ e. stop_for_hostname_failure-Logs k api e)
            (λ host s2 routed q.
              attempt_or IsQuiet (IsAdmitted key s) _ _ s2 (prepare_access-Logs k api r host) q
                (λ e. deny_access-Logs k api e)
                (λ access s3 prepared q'.
                  guarded_or (IsAdmitted key s) image host access s3 q'
                    (x host access s2 s3 single routed prepared))))

    -- the checks from the image on
    admit_or :
        (inst : Instance)
        → inst.meta.deleting ≡ false
        → api.get_instance s.log key ≡ ok inst
        → (image : Result String) → resolve_image inst.spec.image ≡ image
        → All IsQuiet s.log
        → All IsQuiet (admit k api r image (record s { inst = inst })).1.log ⊎ IsAdmitted key s
    unfolding ◌>>=◌
    admit_or inst alive found (err e) allowed h =
        inl (Logs-All _ (reject_image-Logs k api (k.error_text e)) (record s { inst = inst }) h)
    admit_or inst alive found (ok image) allowed h =
        attempt_or IsQuiet (IsAdmitted key s) _ (stopping_found k api r image)
          (record s { inst = inst }) (stop-Logs k api false) h (image_unchecked-Logs)
          (λ stopping s1 settled q.
            if_or IsQuiet (IsAdmitted key s) stopping _ (route k api r image) s1 image_migrates-Logs
              q
              (λ none_stops.
                route_or image s1 q (λ host access s2 s3 single routed prepared supplied. record {
                  inst = inst;
                  image = image;
                  host = host;
                  access = access;
                  settled_run = s1;
                  routed_run = s2;
                  prepared_run = s3;
                  found = found;
                  alive = alive;
                  allowed = allowed;
                  settled = rw none_stops at settled;
                  single = single;
                  routed = routed;
                  prepared = prepared;
                  supplied = supplied;
                })))

    started_or :
        (inst : Instance)
        → api.get_instance s.log key ≡ ok inst
        → (s1 : Run) → s ≡ s1
        → All IsQuiet s1.log
        → All IsQuiet (started k api r inst s1).1.log ⊎ IsAdmitted key s
    unfolding ◌>>=◌
    started_or inst found s1 same h =
        if_or IsQuiet (IsAdmitted key s) inst.meta.deleting _ (admit k api r _)
          (record s1 { inst = inst }) finalize-Logs h
          (λ alive.
            subst
              (λ (t : Run).
                All IsQuiet t.log
                → All IsQuiet
                    (admit k api r (resolve_image inst.spec.image) (record t { inst = inst })).1.log
                  ⊎ IsAdmitted key s)
              same (admit_or inst alive found (resolve_image inst.spec.image) refl) h)

    -- A run of Reconcile sends only writes that publish nothing, unless every check was passed: the
    -- instance exists and is not being deleted, its image is allowed, no Deployment of it has to be
    -- stopped first, it asks for one replica, its hostname was selected and checked, its access
    -- Secrets were prepared, it has the finalizer, and its credentials could be read.
    pub reconcile-IsAdmitted :
        All IsQuiet s.log → All IsQuiet (reconcile k api r key s).1.log ⊎ IsAdmitted key s
    unfolding reconcile ◌>>=◌
    reconcile-IsAdmitted h =
        attempt_or IsQuiet (IsAdmitted key s) _ (instance_found k api r) s
          (Logs-ask (λ log. api.get_instance log key)) h (λ e. Logs-pure _)
          (λ inst s1 found q. started_or inst (ap (λ p. p.0) found) s1 (ap (λ p. p.1) found) q)
