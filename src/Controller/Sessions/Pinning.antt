-- ===== src/Controller/Sessions/Pinning.antt =====
-- What pinAccessSecret and persistAccessSecretPins add to the log, and what is left of a call after
-- them.
use showroom_msp_chat_ui.Controller.Effects.Sends.{ok_injective, err-ne-ok}
use showroom_msp_chat_ui.Prelude.{
  ◌+◌, String, ◌≡◌, refl, ◌⊎◌, inl, inr, not, ◌∷◌, ◌==◌, ltb, if◌then◌else◌, Bool-cases, length,
  sym,
}
use showroom_msp_chat_ui.Controller.Setup.{Kit}
use showroom_msp_chat_ui.Controller.Effects.{
  ◌>>=◌, Api, Run, continue, patch_status, fail, put, pure,
}
use showroom_msp_chat_ui.Controller.Objects.{Instance, Secret}
use showroom_msp_chat_ui.Errors.{Result, Error, ok, Result-cases, err, message}
use showroom_msp_chat_ui.Controller.Sessions.{
  persist_access_secret_pins, pin_access_secret, same_map, max_access_bundles,
}
use showroom_msp_chat_ui.Dictionary.{Map, insert}

module _ (k : Kit) (api : Api) where
  abbrev pub with_pins : Instance → Map String → Instance
  with_pins inst pins = record inst { status = record (inst.status) { access_secret_uids = pins } }

  checked-log :
      (persisted : Result Instance) (pins : Map String) (s : Run)
      → (continue persisted
          (λ (p : Instance).
            if not (same_map p.status.access_secret_uids pins)
            then fail (message "ChatUIInstance schema must persist access Secret UID pins")
            else put p)
          s).1.log
        ≡ s.log
  checked-log (err e) pins s = refl
  checked-log (ok p) pins s = elim (Bool-cases (not (same_map p.status.access_secret_uids pins))) [
    | inl other ↦ rw other refl
    | inr same ↦ rw same refl
  ]

  -- one patch, whatever the API server answers
  pub persist-log :
      (pins : Map String) (s : Run)
      → (persist_access_secret_pins k api pins s).1.log
        ≡ patch_status (with_pins s.inst pins) ∷ s.log
  unfolding persist_access_secret_pins ◌>>=◌
  persist-log pins s =
      elim (Result-cases (api.send_instance s.log (patch_status (with_pins s.inst pins)))) [
        | inl (_, sent) ↦ rw sent (checked-log _ pins _)
        | inr (_, failed) ↦ rw failed refl
      ]

  abbrev pub pins_with : Secret → Instance → Map String
  pins_with secret inst = insert secret.meta.name secret.meta.uid inst.status.access_secret_uids

  pub pin_access_secret-log :
      (secret : Secret) (s : Run)
      → ((e : Error) × ((pin_access_secret k api secret s).0 ≡ err e)
          × ((pin_access_secret k api secret s).1.log ≡ s.log))
        ⊎ ((pin_access_secret k api secret s).1.log
            ≡ patch_status (with_pins s.inst (pins_with secret s.inst)) ∷ s.log)
  unfolding pin_access_secret ◌>>=◌
  pin_access_secret-log secret s = elim (Bool-cases (secret.meta.uid == "")) [
    | inl unnamed ↦ rw unnamed (inl (_, refl, refl))
    | inr named ↦
        elim (Bool-cases (ltb (max_access_bundles + 1) (length (pins_with secret s.inst)))) [
          | inl full ↦ rw (named, full) (inl (_, refl, refl))
          | inr roomy ↦ rw (named, roomy) (inr (persist-log (pins_with secret s.inst) s))
        ]
  ]

  -- what is left of a call that answers with `a` when it goes on
  pub then-log :
      (r : Result (Unit {0})) (a : Secret) (s : Run) → (continue r (λ _. pure a) s).1.log ≡ s.log
  then-log (ok _) a s = refl
  then-log (err e) a s = refl

  pub then-err :
      (r : Result (Unit {0})) (a : Secret) (s : Run) (e : Error)
      → r ≡ err e
      → (continue r (λ _. pure a) s).0 ≡ err e
  then-err r a s e h = rw h refl

  pub then-ok :
      (r : Result (Unit {0})) (a : Secret) (s : Run) (t : Secret)
      → (continue r (λ _. pure a) s).0 ≡ ok t
      → t ≡ a
  then-ok (ok _) a s t h = sym (ok_injective h)
  then-ok (err e) a s t h = absurd (err-ne-ok h)
