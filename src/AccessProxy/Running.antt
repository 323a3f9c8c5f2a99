-- ===== src/AccessProxy/Running.antt =====
-- What the access proxy serves, and when it succeeds.
use showroom_msp_chat_ui.Prelude.{
  String, ◌≡◌, ◌≢◌, ◌↔◌, ◌⊎◌, none, some, arith, All, sym, ap, ◌∙◌, inl, inr, ◌==◌, Bool-cases,
  ==-false, refl,
}
use showroom_msp_chat_ui.AccessPolicy.{decode}
use showroom_msp_chat_ui.AccessGate.{Config, Gate, validate, new_gate, trust}
use showroom_msp_chat_ui.AccessProxy.{
  Ending, signalled, closed, server_failed, serve_until_end, returned, reports_health, Process,
  Server, prepare, run, serves, upstream, open_configuration,
}
use showroom_msp_chat_ui.Errors.{Result, Error, ok, err, >>=-eq-ok}
use showroom_msp_chat_ui.Controller.Effects.Sends.{err-ne-ok}

module _ (p : Process) (path : String) where
  -- the configuration could be read, decoded and validated, and the gate is made of it
  pub record IsReadyGate (gate : Gate) : Type 0 where
    pub named : path ≢ ""
    pub content : Result String
    pub opened : p.files path ≡ ok content
    pub decoded : decode p.decoder content ≡ ok gate.config
    pub valid : validate p.validation p.parse_url gate.config ≡ ok tt
    pub trusted : trust p.validation p.parse_url p.store gate.config.kcp_ca ≡ ok tt
    pub target : p.parse_url upstream ≡ some gate.upstream

  gate_of :
      (config : Config) (gate : Gate)
      → new_gate p.validation p.parse_url p.store config upstream ≡ ok gate
      → (validate p.validation p.parse_url config ≡ ok tt)
        × (trust p.validation p.parse_url p.store config.kcp_ca ≡ ok tt)
        × (p.parse_url upstream ≡ some gate.upstream)
        × (gate.config ≡ config)
  unfolding new_gate
  gate_of config gate h = ground arith

  file_opened :
      (file : Result (Result String)) (content : Result String)
      → open_configuration file ≡ ok content
      → file ≡ ok content
  file_opened (ok read) content h = h
  file_opened (err e) content h = cc

  prepare-IsReadyGate : (gate : Gate) → prepare p path ≡ ok gate → IsReadyGate gate
  unfolding prepare
  prepare-IsReadyGate gate h = elim (Bool-cases (path == "")) [
    | inl empty ↦ absurd (err-ne-ok (rw empty at h))
    | inr named ↦
        let (content, readable, rest) =
          >>=-eq-ok (open_configuration (p.files path)) _ (rw named at h) in
        let (config, decoded, made) = >>=-eq-ok (decode p.decoder content) _ rest in
        let (valid, trusted, target, same) = gate_of config gate made in
        record {
          named = ==-false named;
          content = content;
          opened = file_opened (p.files path) content readable;
          decoded = decoded ∙ ap ok (sym same);
          valid = rw same valid;
          trusted = rw same trusted;
          target = target;
        }
  ]

  -- A server of a ready gate, which only reports its health or listens on the loopback address.
  abbrev pub IsSafe : Server → Type 0
  IsSafe server =
      (gate : Gate) × IsReadyGate gate
      × ((server.handler ≡ reports_health gate)
          ⊎ ((server.handler ≡ serves gate) × (server.addr ≡ "127.0.0.1:8082")))

  served-IsSafe :
      (made : Result Gate) → prepare p path ≡ made → All IsSafe (serve_until_end p made).servers
  served-IsSafe (err e) h = tt
  served-IsSafe (ok gate) h =
      let ready = prepare-IsReadyGate gate h in
      ((gate, ready, inr (refl, refl)), ((gate, ready, inl refl), tt))

  abbrev pub EndsWell : Ending → Type 0
  EndsWell ending = (e : Error) → ending ≢ server_failed e

  returned_iff : (ending : Ending) → (returned p ending ≡ none) ↔ EndsWell ending
  returned_iff signalled = (λ h e w. cc, λ h. refl)
  returned_iff closed = (λ h e w. cc, λ h. refl)
  returned_iff (server_failed e) = (λ h. cc, λ h. absurd (h e refl))

  error_iff :
      (made : Result Gate)
      → ((serve_until_end p made).error ≡ none)
        ↔ (((gate : Gate) × (made ≡ ok gate)) × EndsWell p.ending)
  error_iff (err e) = (λ h. cc, λ ((_, same), _). cc)
  error_iff (ok gate) =
      let (f, g) = returned_iff p.ending in (λ h. ((gate, refl), f h), λ (_, w). g w)

  -- Every server that listens is one of a gate whose configuration could be read, decoded and
  -- validated and which forwards to the application's own address, and it only reports the gate's
  -- health or listens on 127.0.0.1:8082. The process ends without an error exactly when there is
  -- such a gate and no server failed, other than by being closed, before the end.
  pub run_exposure :
      All IsSafe (run p path).servers
      × (((run p path).error ≡ none)
          ↔ (((gate : Gate) × (prepare p path ≡ ok gate)) × EndsWell p.ending))
  unfolding run
  run_exposure = (served-IsSafe (prepare p path) refl, error_iff (prepare p path))
