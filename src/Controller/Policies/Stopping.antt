-- ===== src/Controller/Policies/Stopping.antt =====
-- Which Deployments the operator stops.
use showroom_msp_chat_ui.Prelude.{
  ◌≤◌, ◌≡◌, ◌↔◌, ◌⊎◌, Bool, true, false, ◌||◌, some, ◌∷◌, refl, inl, inr, Bool-cases, ℕ, not, arith,
  ltb, eqb,
}
use showroom_msp_chat_ui.Controller.Effects.{◌>>=◌, Api, Run, attempt, update_deployment}
use showroom_msp_chat_ui.Controller.Setup.{Kit, owned_by_instance, chatui_key}
use showroom_msp_chat_ui.Controller.Pods.{Deployment}
use showroom_msp_chat_ui.Errors.{Result, ok, err, is_not_found, Result-cases}
use showroom_msp_chat_ui.Controller.Policies.{
  runs_other_image, stop_owned, stop_unapproved_deployment, is_stopped, stop_found,
}
use showroom_msp_chat_ui.Controller.Objects.{pos}
use showroom_msp_chat_ui.Controller.Effects.Sends.{err-ne-ok}

-- What a run leaves behind: nothing, or the Deployment that was found, owned by the instance and
-- unapproved, scaled to zero and changed in nothing else.
abbrev pub IsOwnStop : Kit → Api → Run → Bool → Result Deployment → Run → Type 0
IsOwnStop k api s force found s' =
    (s' ≡ s)
    ⊎ ((d : Deployment) × (found ≡ ok d)
        × (owned_by_instance d.meta s.inst ≡ true)
        × ((force || runs_other_image k api d) ≡ true)
        × (s'
            ≡ record s { log = update_deployment (record d { replicas = some (pos 0) }) ∷ s.log }))

-- The answer that nothing has to be waited for: there is no Deployment, or it is the instance's own
-- and approved, or scaled to zero, which the Deployment controller has observed, and without pods.
abbrev pub IsSettled : Kit → Api → Run → Bool → Result Deployment → Type 0
IsSettled k api s force (err e) = is_not_found e ≡ true
IsSettled k api s force (ok d) =
    (owned_by_instance d.meta s.inst ≡ true)
    × (((force || runs_other_image k api d) ≡ false)
        ⊎ ((is_stopped k api d.replicas ≡ true)
            × (d.meta.generation ≤ d.status.observed_generation)
            × (d.status.replicas ≡ 0)))

waiting_iff :
    (seen wanted replicas : ℕ)
    → (ok (ltb seen wanted || not (eqb replicas 0)) ≡ ok false)
      ↔ ((true ≡ true) × ((true ≡ false) ⊎ ((true ≡ true) × (wanted ≤ seen) × (replicas ≡ 0))))
waiting_iff seen wanted replicas = ground arith

no_way : {A B : Type 0} → (true ≡ false) ⊎ ((false ≡ true) × A × B) → ⊥
no_way (inl h) = cc
no_way (inr (h, _, _)) = cc

module _ (k : Kit) (api : Api) where
  stop_owned_iff :
      (force : Bool) (d : Deployment) (s : Run)
      → (((stop_owned k api s.inst force d s).0 ≡ ok false) ↔ IsSettled k api s force (ok d))
        × IsOwnStop k api s force (ok d) (stop_owned k api s.inst force d s).1
  unfolding ◌>>=◌
  stop_owned_iff force d s = elim (Bool-cases (owned_by_instance d.meta s.inst)) [
    | inr foreign ↦ rw foreign ((λ w. absurd (err-ne-ok w), λ (w, _). cc), inl refl)
    | inl own ↦ elim (Bool-cases (force || runs_other_image k api d)) [
      | inr approved ↦ rw (own, approved) ((λ _. (refl, inl refl), λ _. refl), inl refl)
      | inl bad ↦ elim (Bool-cases (is_stopped k api d.replicas)) [
        | inl stopped ↦
            rw (own, bad, stopped)
              (
                waiting_iff d.status.observed_generation d.meta.generation d.status.replicas,
                inl refl,
              )
        | inr runs ↦
            let stop = update_deployment (record d { replicas = some (pos 0) }) in
            elim (Result-cases (api.send s.log stop)) [
              | inl (_, e) ↦
                  rw (own, bad, runs, e)
                    ((λ w. cc, λ (_, w). absurd (no_way w)), inr (d, refl, own, bad, refl))
              | inr (_, e) ↦
                  rw (own, bad, runs, e)
                    (
                      (λ w. absurd (err-ne-ok w), λ (_, w). absurd (no_way w)),
                      inr (d, refl, own, bad, refl),
                    )
            ]
      ]
    ]
  ]

  stop_found_iff :
      (force : Bool) (found : Result Deployment) (s : Run)
      → (((stop_found k api s.inst force found s).0 ≡ ok false) ↔ IsSettled k api s force found)
        × IsOwnStop k api s force found (stop_found k api s.inst force found s).1
  stop_found_iff force (ok d) s = stop_owned_iff force d s
  stop_found_iff force (err e) s = elim (Bool-cases (is_not_found e)) [
    | inl h ↦ rw h ((λ _. refl, λ _. refl), inl refl)
    | inr h ↦ rw h ((λ w. absurd (err-ne-ok w), λ w. cc), inl refl)
  ]

  -- stopUnapprovedDeployment answers that nothing is left to stop exactly when there is no Deployment,
  -- or it is the instance's own and approved, or fully scaled down; and all that it may send is the
  -- instance's own, unapproved Deployment scaled to zero and changed in nothing else.
  pub stop_unapproved_deployment_iff :
      (force : Bool) (s : Run)
      → (((stop_unapproved_deployment k api force s).0 ≡ ok false)
          ↔ IsSettled k api s force (api.get_deployment s.log (chatui_key s.inst)))
        × IsOwnStop k api s force
            (api.get_deployment s.log (chatui_key s.inst))
            (stop_unapproved_deployment k api force s).1
  unfolding stop_unapproved_deployment attempt ◌>>=◌
  stop_unapproved_deployment_iff force s =
      stop_found_iff force (api.get_deployment s.log (chatui_key s.inst)) s
