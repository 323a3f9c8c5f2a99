-- ===== src/Controller/Cutover.antt =====
-- waitForAccessCutover of internal/controller/access_resources.go: no new template before the route
-- is withdrawn and the old pods are gone.
use showroom_msp_chat_ui.Prelude.{
  ◌≤◌, ◌≡◌, ◌↔◌, Bool, true, false, ◌||◌, not, Option, none, some, List, [], arith, ltb, eqb,
  if◌then◌else◌, length, refl, inl, inr, Bool-cases, sym, ap, ◌∙◌,
}
use showroom_msp_chat_ui.Controller.Effects.{
  ◌>>=◌, ◌>>◌, Api, Action, Run, pure, fail, ask, write, update_deployment,
}
use showroom_msp_chat_ui.Controller.Setup.{Kit}
use showroom_msp_chat_ui.Controller.Objects.{Instance, pos}
use showroom_msp_chat_ui.Controller.Pods.{Deployment, PodSpec, Selector}
use showroom_msp_chat_ui.Errors.{message, ok, Result-cases}
use showroom_msp_chat_ui.Controller.Policies.{is_stopped}
use showroom_msp_chat_ui.Controller.Routes.{withdraw_access}
use showroom_msp_chat_ui.Controller.Effects.Sends.{ok_injective, err-ne-ok}

module _ (k : Kit) (api : Api) where
  -- not settled: the scale-down is not observed, or pods are reported or found
  abbrev pub has_pods : Deployment → List PodSpec → Bool
  has_pods d pods =
      ltb d.status.observed_generation d.meta.generation
      || not (eqb d.status.replicas 0)
      || not (eqb (length pods) 0)

  -- The pods of the Deployment's selector, its labels and its expressions; a selector that
  -- LabelSelectorAsSelector refuses is an error of the listing.
  abbrev pub matching_pods : Instance → Option Selector → Action (List PodSpec)
  matching_pods inst none = fail (message "cannot establish prior Deployment pod ownership")
  matching_pods inst (some selector) =
      if eqb (length selector.match_labels) 0
      then fail (message "cannot establish prior Deployment pod ownership")
      else ask (λ log. api.list_matching_pods log inst.meta.namespace selector)

  abbrev pub stop_or_settle : Instance → Deployment → Action Bool
  stop_or_settle inst d =
      if not (is_stopped k api d.replicas)
      then (do write api.send (update_deployment (record d { replicas = some (pos 0) })); pure true)
      else (do pods ← matching_pods inst d.selector; pure (has_pods d pods))

  unfoldable pub wait_for_access_cutover : Instance → Deployment → Action Bool
  wait_for_access_cutover inst existing = do withdraw_access k api; stop_or_settle inst existing

  -- What must hold before the template of a Deployment is replaced: the route was withdrawn, and the
  -- Deployment is scaled to zero, has observed that, reports no replicas, and its selector, which is
  -- set, finds no pods.
  pub record IsCutOver (s : Run) (inst : Instance) (d : Deployment) : Type 0 where
    pub withdrawn : (withdraw_access k api s).0 ≡ ok tt
    pub stopped : is_stopped k api d.replicas ≡ true
    pub observed : d.meta.generation ≤ d.status.observed_generation
    pub no_replicas : d.status.replicas ≡ 0
    pub no_pods : (matching_pods inst d.selector (withdraw_access k api s).1).0 ≡ ok []

  no_pods_iff :
      (d : Deployment) (pods : List PodSpec)
      → (has_pods d pods ≡ false) ↔ (
          (d.meta.generation ≤ d.status.observed_generation)
          × (d.status.replicas ≡ 0)
          × (pods ≡ []))
  no_pods_iff d pods = ground arith

  settle_iff :
      (inst : Instance) (d : Deployment) (s : Run)
      → ((stop_or_settle inst d s).0 ≡ ok false) ↔ (
          (is_stopped k api d.replicas ≡ true)
          × ((pods : List PodSpec) × ((matching_pods inst d.selector s).0 ≡ ok pods)
              × (has_pods d pods ≡ false)))
  unfolding ◌>>=◌
  settle_iff inst d s = elim (Bool-cases (is_stopped k api d.replicas)) [
    | inr runs ↦
        elim (Result-cases
          (api.send s.log (update_deployment (record d { replicas = some (pos 0) })))) [
            | inl (_, e) ↦ rw (runs, e) (λ w. cc, λ (w, _). cc)
            | inr (_, e) ↦ rw (runs, e) (λ w. cc, λ (w, _). cc)
          ]
    | inl stopped ↦ elim (Result-cases (matching_pods inst d.selector s).0) [
      | inl (pods, e) ↦
          rw (stopped, e)
            (
              λ w. (refl, (pods, refl, ok_injective w)),
              λ (_, (others, same, h)).
                  ap (λ (b : Bool). ok b) (ap (has_pods d) (ok_injective same) ∙ h),
            )
      | inr (_, e) ↦ rw (stopped, e) (λ w. cc, λ (_, (_, w, _)). cc)
    ]
  ]

  -- waitForAccessCutover lets the new template through exactly when the route was withdrawn, and the
  -- Deployment is scaled to zero, has observed that, reports no replicas, and its selector finds no
  -- pods.
  pub wait_for_access_cutover_iff :
      (s : Run) (inst : Instance) (d : Deployment)
      → ((wait_for_access_cutover inst d s).0 ≡ ok false) ↔ IsCutOver s inst d
  unfolding wait_for_access_cutover ◌>>=◌
  wait_for_access_cutover_iff s inst d = elim (Result-cases (withdraw_access k api s).0) [
    | inl (done, e) ↦
        let (f, b) = settle_iff inst d (withdraw_access k api s).1 in
        rw (wait_for_access_cutover, e)
          (
            λ w.
                let (stopped, (pods, listed, none_left)) = f w in
                let (observed, replicas, empty) = (no_pods_iff d pods).0 none_left in
                record {
                  withdrawn = e;
                  stopped = stopped;
                  observed = observed;
                  no_replicas = replicas;
                  no_pods = listed ∙ ap (λ (ps : List PodSpec). ok ps) empty;
                },
            λ c. b (
              c.stopped,
              ([], c.no_pods, (no_pods_iff d []).1 (c.observed, c.no_replicas, refl)),
            ),
          )
    | inr (_, e) ↦ rw e (λ w. absurd (err-ne-ok w), λ c. absurd (err-ne-ok (sym e ∙ c.withdrawn)))
  ]
