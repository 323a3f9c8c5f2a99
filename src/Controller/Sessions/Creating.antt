-- ===== src/Controller/Sessions/Creating.antt =====
-- When sessionSecret makes a session Secret, and which.
use showroom_msp_chat_ui.Controller.Sessions.Pinning.{
  with_pins, pin_access_secret-log, then-log, then-err, then-ok,
}
use mathlib.Core.Path.{subst}
use showroom_msp_chat_ui.Controller.Effects.Sends.{err-ne-ok}
use showroom_msp_chat_ui.Prelude.{
  String, ◌≡◌, refl, ◌⊎◌, inl, inr, true, some, [], ◌∷◌, ◌==◌, Bool-cases, Option-cases, sym, ap,
  ◌∙◌, ==-true,
}
use showroom_msp_chat_ui.Controller.Setup.{Kit}
use showroom_msp_chat_ui.Controller.Effects.{◌>>=◌, Api, Run, create_secret, patch_status, attempt}
use showroom_msp_chat_ui.Controller.Objects.{Secret, Meta}
use showroom_msp_chat_ui.Errors.{Result, Error, ok, Result-cases, err, is_not_found}
use showroom_msp_chat_ui.Controller.Sessions.{
  pin_access_secret, pin_of, session_secret_name, new_meta, create_pinned_secret, create_session,
  session_secret,
}
use showroom_msp_chat_ui.Dictionary.{Map, insert}
use showroom_msp_chat_ui.Controller.Sessions.Trusting.{session_key, session_secret_iff, IsReliable}

module _ (k : Kit) (api : Api) where
  -- The call fails with the creation on top of the log, or over it is the one patch that pins the
  -- stored Secret, and only that Secret is answered.
  abbrev pub IsCreationRun : Run → Secret → Result Secret × Run → Type 0
  IsCreationRun s sent (answer, after) =
      ((e : Error) × (answer ≡ err e) × (after.log ≡ create_secret sent ∷ s.log))
      ⊎ ((stored : Secret) × (api.send_secret s.log (create_secret sent) ≡ ok stored)
          × (after.log
              ≡ patch_status (
                  with_pins k api s.inst
                    (insert stored.meta.name stored.meta.uid s.inst.status.access_secret_uids))
                ∷ create_secret sent
                ∷ s.log)
          × ((t : Secret) → answer ≡ ok t → t ≡ stored))

  -- Nothing is changed, and only a reliable Secret that was read is answered.
  abbrev pub IsReading : Run → Result Secret × Run → Type 0
  IsReading s (answer, after) =
      (after ≡ s)
      × ((t : Secret)
          → answer ≡ ok t
          → (api.get_secret s.log (session_key k api s.inst) ≡ ok t) × IsReliable k api s.inst t)

  -- The session Secret is not there and not pinned, its keys are new draws, and it is the only
  -- Secret that is created.
  pub record IsCreation (s : Run) (outcome : Result Secret × Run) : Type 0 where
    pub cause : Error
    pub read : api.get_secret s.log (session_key k api s.inst) ≡ err cause
    pub missing : is_not_found cause ≡ true
    pub unpinned : pin_of k api s.inst (session_secret_name k api s.inst) ≡ ""
    pub cookie : String
    pub webui : String
    pub cookie_drawn : api.random s.log "cookie-secret" ≡ some cookie
    pub webui_drawn : api.random s.log "webui-secret" ≡ some webui
    pub meta : Meta
    pub controlled :
        k.set_controller s.inst (new_meta k api s.inst (session_secret_name k api s.inst)) ≡ ok meta
    pub created :
        IsCreationRun s
          (record {
            meta = meta;
            immutable = some true;
            contents =
                ("cookie-secret", k.base64_encode cookie)
                ∷ ("webui-secret", k.base64_encode webui)
                ∷ [];
          })
          outcome

  abbrev stored_as : Meta → Map String → Secret
  stored_as meta contents = record { meta = meta; immutable = some true; contents = contents }

  create_pinned_secret-IsCreationRun :
      (name : String) (contents : Map String) (meta : Meta) (s : Run)
      → k.set_controller s.inst (new_meta k api s.inst name) ≡ ok meta
      → IsCreationRun s
          (stored_as meta contents)
          (create_pinned_secret k api s.inst name contents s)
  unfolding ◌>>=◌
  create_pinned_secret-IsCreationRun name contents meta s controlled =
      let sent = create_secret (stored_as meta contents) in
      elim (Result-cases (api.send_secret s.log sent)) [
        | inr (_, failed) ↦ rw (controlled, failed) (inl (_, refl, refl))
        | inl (stored, answered) ↦
            let next : Run = record s { log = sent ∷ s.log } in
            let pinning = pin_access_secret k api stored next in
            rw (controlled, answered)
              (elim (pin_access_secret-log k api stored next) [
                | inl (e, failed, same) ↦ inl (
                  e,
                  then-err k api pinning.0 stored pinning.1 e failed,
                  then-log k api pinning.0 stored pinning.1 ∙ same,
                )
                | inr pinned ↦ inr (
                  stored,
                  refl,
                  then-log k api pinning.0 stored pinning.1 ∙ pinned,
                  then-ok k api pinning.0 stored pinning.1,
                )
              ])
      ]

  abbrev creating : Run → Result Secret × Run
  creating s = create_session k api s.inst (session_secret_name k api s.inst) s

  create_session-cases :
      (s : Run) (cause : Error)
      → api.get_secret s.log (session_key k api s.inst) ≡ err cause
      → is_not_found cause ≡ true
      → pin_of k api s.inst (session_secret_name k api s.inst) ≡ ""
      → IsReading s (creating s) ⊎ IsCreation s (creating s)
  unfolding ◌>>=◌
  create_session-cases s cause read missing unpinned =
      let name = session_secret_name k api s.inst in
      elim (Option-cases (api.random s.log "cookie-secret")) [
        | inl dry ↦ rw dry (inl (refl, λ t h. absurd (err-ne-ok h)))
        | inr (cookie, cookie_drawn) ↦ elim (Option-cases (api.random s.log "webui-secret")) [
          | inl dry ↦ rw (cookie_drawn, dry) (inl (refl, λ t h. absurd (err-ne-ok h)))
          | inr (webui, webui_drawn) ↦
              elim (Result-cases (k.set_controller s.inst (new_meta k api s.inst name))) [
                | inr (_, failed) ↦
                    rw (cookie_drawn, webui_drawn, failed) (inl (refl, λ t h. absurd (err-ne-ok h)))
                | inl (meta, controlled) ↦
                    rw (cookie_drawn, webui_drawn)
                      (inr (record {
                        cause = cause;
                        read = read;
                        missing = missing;
                        unpinned = unpinned;
                        cookie = cookie;
                        webui = webui;
                        cookie_drawn = cookie_drawn;
                        webui_drawn = webui_drawn;
                        meta = meta;
                        controlled = controlled;
                        created = create_pinned_secret-IsCreationRun name _ meta s controlled;
                      }))
              ]
        ]
      ]

  -- Whatever the API server answers: sessionSecret changes nothing, and a Secret that it answers
  -- with was read and is reliable (its own, immutable, alive, pinned, with its two keys); or the
  -- session Secret was not found and its name is not pinned. In that case it creates one immutable
  -- Secret of the instance, whose two keys are the two draws of the random source; then it fails, or
  -- it sends one patch, which adds the name and the UID of the Secret that was stored to the pins of
  -- the status, and a Secret that it answers with is that one.
  pub session_secret-IsCreation :
      (s : Run) → IsReading s (session_secret k api s) ⊎ IsCreation s (session_secret k api s)
  unfolding session_secret attempt ◌>>=◌
  session_secret-IsCreation s =
      let name = session_secret_name k api s.inst in
      elim (Result-cases (api.get_secret s.log (session_key k api s.inst))) [
        | inl (secret, found) ↦ inl (
          (session_secret_iff k api s secret secret found).1,
          λ t h.
              let (same, reliable) = (session_secret_iff k api s secret t found).0.0 h in
              (found ∙ ap (λ (u : Secret). ok u) (sym same), rw same reliable),
        )
        | inr (cause, read) ↦ elim (Bool-cases (is_not_found cause)) [
          | inr fault ↦ rw (read, fault) (inl (refl, λ t h. absurd (err-ne-ok h)))
          | inl missing ↦ elim (Bool-cases (pin_of k api s.inst name == "")) [
            | inr pinned ↦ rw (read, missing, pinned) (inl (refl, λ t h. absurd (err-ne-ok h)))
            | inl unpinned ↦
                let creates : session_secret k api s ≡ creating s =
                  rw (read, missing, unpinned) refl in
                subst (λ p. IsReading s p ⊎ IsCreation s p) (sym creates)
                  (create_session-cases s cause read missing (==-true unpinned))
          ]
        ]
      ]
