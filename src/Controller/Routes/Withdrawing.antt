-- ===== src/Controller/Routes/Withdrawing.antt =====
-- What withdrawAccess deletes.
use showroom_msp_chat_ui.Prelude.{◌≡◌, refl, ◌↔◌, ◌⊎◌, inl, inr, true, ◌∷◌, Bool-cases, arith}
use showroom_msp_chat_ui.Controller.Effects.{◌>>=◌, Api, Run, attempt, delete_ingress}
use showroom_msp_chat_ui.Controller.Setup.{Kit, owns_ingress, chatui_key}
use showroom_msp_chat_ui.Controller.Objects.{Ingress, key_of}
use showroom_msp_chat_ui.Errors.{Result, Error, ok, err, is_not_found}
use showroom_msp_chat_ui.Controller.Routes.{deleted, withdraw_found, withdraw_access}
use showroom_msp_chat_ui.Controller.Effects.Sends.{err-ne-ok}

-- What a run leaves behind: nothing, or the deletion of the Ingress that was found, owned by the
-- instance, under its UID and resource version.
abbrev pub IsOwnDeletion : Run → Result Ingress → Run → Type 0
IsOwnDeletion s found s' =
    (s' ≡ s)
    ⊎ ((ing : Ingress) × (found ≡ ok ing)
        × (owns_ingress s.inst ing ≡ true)
        × (s' ≡ record s {
          log = delete_ingress (key_of ing.meta) ing.meta.uid ing.meta.resource_version ∷ s.log;
        }))

-- The route is gone: there is no Ingress, or the deletion was accepted or found nothing.
abbrev pub IsGone : Api → Run → Result Ingress → Type 0
IsGone api s (err e) = is_not_found e ≡ true
IsGone api s (ok ing) =
    (owns_ingress s.inst ing ≡ true)
    × ((api.send s.log (delete_ingress (key_of ing.meta) ing.meta.uid ing.meta.resource_version)
          ≡ ok tt)
        ⊎ ((e : Error) × (api.send s.log
                (delete_ingress (key_of ing.meta) ing.meta.uid ing.meta.resource_version)
              ≡ err e)
            × (is_not_found e ≡ true)))

module _ (k : Kit) (api : Api) where
  deleted_iff :
      (r : Result (Unit {0})) (s : Run)
      → (((deleted k api r s).0 ≡ ok tt)
          ↔ ((r ≡ ok tt) ⊎ ((e : Error) × (r ≡ err e) × (is_not_found e ≡ true))))
        × ((deleted k api r s).1 ≡ s)
  deleted_iff (ok tt) s = ((λ h. inl refl, λ h. refl), refl)
  deleted_iff (err e) s = elim (Bool-cases (is_not_found e)) [
    | inl h ↦ rw h ((λ _. inr (e, refl, h), λ _. refl), refl)
    | inr h ↦ rw h (
      (
        λ w. absurd (err-ne-ok w),
        λ w. elim w [
          | inl same ↦ absurd (err-ne-ok same)
          | inr (f, same, gone) ↦ absurd (ground (arith, h, same, gone))
        ],
      ),
      refl,
    )
  ]

  withdraw_found_iff :
      (found : Result Ingress) (s : Run)
      → (((withdraw_found k api s.inst found s).0 ≡ ok tt) ↔ IsGone api s found)
        × IsOwnDeletion s found (withdraw_found k api s.inst found s).1
  unfolding attempt ◌>>=◌
  withdraw_found_iff (err e) s = elim (Bool-cases (is_not_found e)) [
    | inl h ↦ rw h ((λ _. refl, λ _. refl), inl refl)
    | inr h ↦ rw h ((λ w. absurd (err-ne-ok w), λ w. cc), inl refl)
  ]
  withdraw_found_iff (ok ing) s = elim (Bool-cases (owns_ingress s.inst ing)) [
    | inl own ↦
        let sent = delete_ingress (key_of ing.meta) ing.meta.uid ing.meta.resource_version in
        let s' = record s { log = sent ∷ s.log } in
        let ((f, b), same) = deleted_iff (api.send s.log sent) s' in
        rw own ((λ h. (refl, f h), λ (_, h). b h), inr (ing, refl, own, same))
    | inr foreign ↦ rw foreign ((λ w. absurd (err-ne-ok w), λ (w, _). cc), inl refl)
  ]

  -- withdrawAccess succeeds exactly when no Ingress has the instance's name, or the one that has it is
  -- the instance's own and its deletion was accepted or found nothing. All that it may send is that
  -- deletion, of an owned Ingress, with the UID and resource version that were read.
  pub withdraw_access_iff :
      (s : Run)
      → (((withdraw_access k api s).0 ≡ ok tt)
          ↔ IsGone api s (api.get_ingress s.log (chatui_key s.inst)))
        × IsOwnDeletion s (api.get_ingress s.log (chatui_key s.inst)) (withdraw_access k api s).1
  unfolding withdraw_access attempt ◌>>=◌
  withdraw_access_iff s = withdraw_found_iff (api.get_ingress s.log (chatui_key s.inst)) s
