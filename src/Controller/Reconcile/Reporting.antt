-- ===== src/Controller/Reconcile/Reporting.antt =====
-- When Reconcile reports an instance as ready.
use mathlib.Core.List.{◌++◌}
use showroom_msp_chat_ui.Prelude.{
  String, ◌≡◌, refl, ◌≢◌, ◌⊎◌, inl, inr, [], ◌∷◌, Bool-cases, All, ==-false,
}
use showroom_msp_chat_ui.Controller.Setup.{Kit, Reconciler}
use showroom_msp_chat_ui.Controller.Effects.{
  ◌>>=◌, Api, Log, Run, attempt, update_status, continue, put, update_instance, patch_status,
  create_deployment, update_deployment, create_service, update_service, create_ingress,
  update_ingress, delete_ingress, create_secret, delete_secret,
}
use showroom_msp_chat_ui.Errors.{Result, ok, err}
use showroom_msp_chat_ui.Controller.Readiness.{
  update_provisioning_status, update_ready_status, Readiness, reported, update_status_to,
  evaluate_instance_readiness,
}
use showroom_msp_chat_ui.Controller.Objects.{Key, Instance}
use showroom_msp_chat_ui.Controller.Reconcile.Publishing.{Published}
use showroom_msp_chat_ui.Controller.Effects.Logs.{Added}
use showroom_msp_chat_ui.Controller.Readiness.Judging.{
  IsReady, IsReadyAnswer, evaluate_instance_readiness_iff,
}
use showroom_msp_chat_ui.Controller.Effects.Keeping.{Keeps}
use showroom_msp_chat_ui.Controller.Reconcile.{reconcile, ingress_done, report_readiness}
use showroom_msp_chat_ui.Controller.Reconcile.Walking.{reconcile-Keeps}

module _ (k : Kit) (api : Api) (r : Reconciler) where
  -- The instance that is reported as ready for a host was ready, at the log so far.
  pub record IsEarned (log : Log) (sent : Instance) : Type 0 where
    pub inst : Instance
    pub host : String
    pub same : sent ≡ reported k api r inst "Ready" host "True" "Provisioned" "Chat UI is ready"
    pub ready : IsReady k api r host (record { log = log; inst = inst })

  -- Each status that was sent by Update is not of the phase Ready, or was earned when it was sent.
  abbrev pub IsHonest : Log → Type 0
  IsHonest [] = Unit
  IsHonest (update_status sent ∷ log) =
      ((sent.status.phase ≢ "Ready") ⊎ IsEarned log sent) × IsHonest log
  IsHonest (_ ∷ log) = IsHonest log

  IsHonest-append :
      (writes log : Log) → All (Published k api r) writes → IsHonest log → IsHonest (writes ++ log)
  IsHonest-append [] log a h = h
  IsHonest-append (update_instance _ ∷ writes) log (_, a) h = IsHonest-append writes log a h
  IsHonest-append (patch_status _ ∷ writes) log (_, a) h = IsHonest-append writes log a h
  IsHonest-append (update_status _ ∷ writes) log (p, a) h = absurd p
  IsHonest-append (create_deployment _ ∷ writes) log (_, a) h = IsHonest-append writes log a h
  IsHonest-append (update_deployment _ ∷ writes) log (_, a) h = IsHonest-append writes log a h
  IsHonest-append (create_service _ ∷ writes) log (_, a) h = IsHonest-append writes log a h
  IsHonest-append (update_service _ ∷ writes) log (_, a) h = IsHonest-append writes log a h
  IsHonest-append (create_ingress _ ∷ writes) log (_, a) h = IsHonest-append writes log a h
  IsHonest-append (update_ingress _ ∷ writes) log (_, a) h = IsHonest-append writes log a h
  IsHonest-append (delete_ingress _ _ _ ∷ writes) log (_, a) h = IsHonest-append writes log a h
  IsHonest-append (create_secret _ ∷ writes) log (_, a) h = IsHonest-append writes log a h
  IsHonest-append (delete_secret _ _ _ ∷ writes) log (_, a) h = IsHonest-append writes log a h

  grows : (s t : Run) → Added (Published k api r) s.log t.log → IsHonest s.log → IsHonest t.log
  grows s t a h = rw a.same (IsHonest-append a.writes s.log a.all h)

  stored-log :
      (answer : Result Instance) (s : Run) → (continue answer (λ inst. put inst) s).1.log ≡ s.log
  stored-log (ok inst) s = refl
  stored-log (err e) s = refl

  -- one report is one write
  update_status_to-log :
      (inst : Instance) (s : Run)
      → (update_status_to k api r inst s).1.log ≡ update_status inst ∷ s.log
  unfolding ◌>>=◌
  update_status_to-log inst s = stored-log (api.send_instance s.log (update_status inst)) _

  provisioning-kept :
      (host reason text : String) (s : Run)
      → IsHonest s.log
      → IsHonest (update_provisioning_status k api r host reason text s).1.log
  unfolding update_provisioning_status ◌>>=◌
  provisioning-kept host reason text s h = rw (update_status_to-log _ s) (inl (==-false refl), h)

  ready-kept :
      (host : String) (s : Run)
      → IsReady k api r host s
      → IsHonest s.log
      → IsHonest (update_ready_status k api r host s).1.log
  unfolding update_ready_status ◌>>=◌
  ready-kept host s w h =
      rw (update_status_to-log _ s)
        (inr (record { inst = s.inst; host = host; same = refl; ready = w }), h)

  report_readiness-kept :
      (host : String) (found : Result Readiness) (s : Run)
      → (IsReadyAnswer found → IsReady k api r host s)
      → IsHonest s.log
      → IsHonest (report_readiness k api r host found s).1.log
  unfolding attempt ◌>>=◌
  report_readiness-kept host (err e) s w h = h
  report_readiness-kept host (ok found) s w h = elim (Bool-cases found.ready) [
    | inl good ↦ rw good (ready-kept host s (w good) h)
    | inr bad ↦ rw bad (provisioning-kept host found.reason found.message s h)
  ]

  report-Keeps :
      (host : String) → Keeps (λ (s : Run). IsHonest s.log) (ingress_done k api r host (ok tt))
  unfolding attempt ◌>>=◌
  report-Keeps host = record {
    kept = λ s h.
        let (judged, unchanged) = evaluate_instance_readiness_iff k api r host s in
        rw unchanged
          (report_readiness-kept host (evaluate_instance_readiness k api r host s).0 s judged.0 h);
  }

  -- Whatever the API server answers, if this holds of the log when Reconcile starts, then it holds
  -- of the log when it ends: each status with the phase Ready that was sent by Update is that of an
  -- instance with the Ready condition true and the URL of a host, and when it was sent, the cached
  -- Deployment was rolled out, the cached endpoints had an address behind port 8080, and the probe
  -- of the service and the DNS check succeeded for that host.
  pub reconcile-IsHonest :
      (key : Key) (s : Run) → IsHonest s.log → IsHonest (reconcile k api r key s).1.log
  reconcile-IsHonest key s h = (reconcile-Keeps k api r grows report-Keeps key).kept s h
