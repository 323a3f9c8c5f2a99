-- ===== src/AccessGate/Serve/Watching.antt =====
-- How long a forwarded request lives.
use showroom_msp_chat_ui.Prelude.{
  String, ◌≡◌, ap, ◌≢◌, ◌↔◌, inl, inr, List, [], ◌∷◌, arith, Bool-cases, ==-true, ◌∙◌, true, eq_iff,
}
use showroom_msp_chat_ui.AccessGate.{Gate, ok}
use showroom_msp_chat_ui.AccessGate.Serve.{done, tick, cancelled, watch, Event, recheck}
use showroom_msp_chat_ui.AccessGate.Authorize.{Identity, authorize, World}
use showroom_msp_chat_ui.Errors.{Result-cases}

-- Every recheck before the end of the request was granted the identity that the request has.
abbrev pub StillGranted : Gate → String → String → List Event → Type 0
StillGranted g token identity [] = Unit
StillGranted g token identity (done ∷ events) = Unit
StillGranted g token identity (tick w ∷ events) =
    ((current : Identity) × (authorize g.config w token ≡ ok current) × (current.name ≡ identity))
    × StillGranted g token identity events

recheck_iff :
    (g : Gate) (token identity : String) (w : World)
    → (recheck g token identity w ≡ true) ↔ (
        (current : Identity) × (authorize g.config w token ≡ ok current)
        × (current.name ≡ identity))
unfolding recheck
recheck_iff g token identity w = elim (Result-cases (authorize g.config w token)) [
  | inl (i, granted) ↦ (
    λ h. (i, granted, ==-true (rw (granted, recheck) at h)),
    λ (j, k, same).
        let e : i ≡ j = ground (arith, granted, k) in
        rw (granted, recheck) ((eq_iff i.name identity).1 (ap (λ t. t.name) e ∙ same)),
  )
  | inr (e, refused) ↦ (λ h. ground arith, λ (j, k, same). ground arith)
]

-- A forwarded request is not cancelled exactly when each recheck up to its end was authorized, by
-- what KCP and the clock said then, as the identity that the request was forwarded with.
pub watch_iff :
    (g : Gate) (token identity : String) (events : List Event)
    → (watch g token identity events ≢ cancelled) ↔ StillGranted g token identity events
unfolding watch
watch_iff g token identity [] = (λ _. tt, λ _ e. cc)
watch_iff g token identity (done ∷ events) = (λ _. tt, λ _ e. cc)
watch_iff g token identity (tick w ∷ events) =
    let (f, b) = watch_iff g token identity events in
    let (r, t) = recheck_iff g token identity w in
    elim (Bool-cases (recheck g token identity w)) [
      | inl kept ↦ (λ h. (r kept, f (rw (kept, watch) at h)), λ (_, k). rw (kept, watch) (b k))
      | inr lost ↦ (λ h. absurd (h (rw (lost, watch))), λ (i, _). absurd (ground (arith, t i)))
    ]
