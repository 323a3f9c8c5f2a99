-- ===== src/Controller/Slug/Recording.antt =====
-- What selectedInstanceHost has checked of the hostname that it gives.
use showroom_msp_chat_ui.HostnamePolicy
use showroom_msp_chat_ui.Prelude.{
  String, ◌≡◌, refl, ◌⊎◌, true, some, sym, ap, ◌∙◌, inl, inr, Bool-cases,
}
use showroom_msp_chat_ui.HostnamePolicy.{Selection, select}
use showroom_msp_chat_ui.Controller.Effects.{◌>>=◌, Api, Run, Action, continue, lift, ask}
use showroom_msp_chat_ui.Controller.Effects.Reads.{Reads, reads}
use showroom_msp_chat_ui.Controller.Setup.{Kit, Reconciler}
use showroom_msp_chat_ui.Controller.Objects.{Instance, key_of, Ingress}
use showroom_msp_chat_ui.Controller.Effects.Sends.{ok_injective, err-ne-ok}
use mathlib.Core.Path.{subst}
use showroom_msp_chat_ui.Controller.Routes.{check_hostname, check_own}
use showroom_msp_chat_ui.Controller.Slug.{
  object_of, has_selection, ensure_slug, persist_slug, selected_instance_host, with_slug,
}
use showroom_msp_chat_ui.Errors.{Result, ok, err}
use showroom_msp_chat_ui.Controller.Policies.{patch}

module _ {A B : Type 0} where
  continued :
      (f : A → Action B) (out : Result A × Run) {b : B} {s' : Run}
      → continue out.0 f out.1 ≡ (ok b, s')
      → (a : A) × (t : Run) × (out ≡ (ok a, t)) × (f a t ≡ (ok b, s'))
  continued f (ok a, t) h = (a, t, refl, h)
  continued f (err e, t) h = cc

  -- An action that succeeds did so in each of its steps.
  bind-eq-ok :
      (m : Action A) (f : A → Action B) (s : Run) {b : B} {s' : Run}
      → (m >>= f) s ≡ (ok b, s')
      → (a : A) × (t : Run) × (m s ≡ (ok a, t)) × (f a t ≡ (ok b, s'))
  unfolding ◌>>=◌
  bind-eq-ok m f s h = continued f (m s) h

module _ (k : Kit) (api : Api) (r : Reconciler) where
  check_own-Reads : (inst : Instance) (found : Result Ingress) → Reads (check_own k api inst found)
  check_own-Reads inst (ok ing) = search reads
  check_own-Reads inst (err e) = search reads

  pub check_hostname-Reads : (host : String) → Reads (check_hostname k api host)
  unfolding check_hostname
  check_hostname-Reads host = search (reads, check_own-Reads)

  -- The status has the selection, or had it when it was read back.
  abbrev pub IsRecorded : Run → Selection → Run → Type 0
  IsRecorded s selection s' =
      (has_selection s.inst.status selection ≡ true)
      ⊎ ((persisted : Instance) × (api.get_instance s'.log (key_of s'.inst.meta) ≡ ok persisted)
          × (has_selection persisted.status selection ≡ true))

  abbrev IsReadBack : Selection → Run → Type 0
  IsReadBack selection s' =
      (persisted : Instance) × (api.get_instance s'.log (key_of s'.inst.meta) ≡ ok persisted)
      × (has_selection persisted.status selection ≡ true)

  persist_slug-IsReadBack :
      (inst : Instance) (selection : Selection) (s s' : Run) (slug : String)
      → persist_slug k api r inst selection s ≡ (ok slug, s')
      → (slug ≡ selection.slug) × IsReadBack selection s'
  unfolding ◌>>=◌
  persist_slug-IsReadBack inst selection s s' slug h =
      let (_, t, _, h1) = bind-eq-ok (patch k api (with_slug k api r inst selection)) _ s h in
      let (persisted, t', read, h2) =
        bind-eq-ok (ask (λ log. api.get_instance log (key_of t.inst.meta))) _ t h1 in
      elim (Bool-cases (has_selection persisted.status selection)) [
        | inl there ↦
            let last = rw there at h2 in
            let same = ap (λ p. p.1) read ∙ ap (λ p. p.1) last in
            (
              sym (ok_injective (ap (λ p. p.0) last)),
              subst (λ (u : Run). IsReadBack selection u) same
                  (persisted, ap (λ p. p.0) read, there),
            )
        | inr missing ↦ absurd (err-ne-ok (ap (λ p. p.0) (rw missing at h2)))
      ]

  ensure_slug-IsRecorded :
      (s s' : Run) (slug : String)
      → ensure_slug k api r s ≡ (ok slug, s')
      → (selection : Selection) × (select k.sha256 (some r.hostname_policy) (object_of s.inst)
          ≡ ok selection)
        × (slug ≡ selection.slug)
        × IsRecorded s selection s'
  unfolding ensure_slug ◌>>=◌
  ensure_slug-IsRecorded s s' slug h =
      let (selection, t, selected, h1) =
        bind-eq-ok (lift (select k.sha256 (some r.hostname_policy) (object_of s.inst))) _ s h in
      elim (Bool-cases (has_selection s.inst.status selection)) [
        | inl there ↦ (
          selection,
          ap (λ p. p.0) selected,
          sym (ok_injective (ap (λ p. p.0) (rw there at h1))),
          inl there,
        )
        | inr missing ↦
            let (same, back) =
              persist_slug-IsReadBack s.inst selection t s' slug (rw missing at h1) in
            (selection, ap (λ p. p.0) selected, same, inr back)
      ]

  -- Where selectedInstanceHost gives a hostname, it is the one that Host makes of the slug which
  -- the hostname policy selects for the instance; the selection stood in the instance's status, or
  -- was found there when the instance was read back after it was written; and checkHostname found
  -- nothing against the hostname in the run that is left.
  pub selected_instance_host-IsRecorded :
      (s s' : Run) (full : String)
      → selected_instance_host k api r s ≡ (ok full, s')
      → (selection : Selection) × (select k.sha256 (some r.hostname_policy) (object_of s.inst)
          ≡ ok selection)
        × (HostnamePolicy.host k.validation r.public_host selection.slug ≡ ok full)
        × IsRecorded s selection s'
        × (check_hostname k api full s' ≡ (ok tt, s'))
  unfolding selected_instance_host
  selected_instance_host-IsRecorded s s' full h =
      let (slug, t, ensured, h1) = bind-eq-ok (ensure_slug k api r) _ s h in
      let (made, t', hosted, h2) =
        bind-eq-ok (lift (HostnamePolicy.host k.validation r.public_host slug)) _ t h1 in
      let (_, t'', checked, h3) = bind-eq-ok (check_hostname k api made) _ t' h2 in
      let (selection, selected, same, recorded) = ensure_slug-IsRecorded s t slug ensured in
      let same_host : made ≡ full = ok_injective (ap (λ p. p.0) h3) in
      let last : t'' ≡ s' = ap (λ p. p.1) h3 in
      let read : t' ≡ s' =
        sym ((check_hostname-Reads made).unchanged t') ∙ ap (λ p. p.1) checked ∙ last in
      let ended : t ≡ s' = ap (λ p. p.1) hosted ∙ read in
      let still : check_hostname k api full s' ≡ (ok tt, t'') =
        subst (λ (u : Run). check_hostname k api full u ≡ (ok tt, t'')) read
          (subst (λ (name : String). check_hostname k api name t' ≡ (ok tt, t'')) same_host
            checked) in
      (
        selection,
        selected,
        ap (λ name. HostnamePolicy.host k.validation r.public_host name) (sym same)
            ∙ ap (λ p. p.0) hosted
            ∙ ap ok same_host,
        subst (λ (u : Run). IsRecorded s selection u) ended recorded,
        still ∙ λ i. (ok tt, last i),
      )
