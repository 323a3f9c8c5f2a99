-- ===== src/Controller/Reconcile/Requests.antt =====
-- A changed Secret reaches exactly the instances that read it.
use showroom_msp_chat_ui.Prelude.{
  ◌≡◌, refl, ap, ◌∙◌, ◌↔◌, inl, inr, true, List, [], ◌∷◌, arith, eq_iff, Bool-cases, All, Listed,
  Bool, false,
}
use showroom_msp_chat_ui.Controller.Watch.{
  references, requests_for, find_chatui_instances_for_secret,
}
use showroom_msp_chat_ui.Controller.Reconcile.{credentials_key}
use showroom_msp_chat_ui.Controller.Objects.{Instance, Secret, Key, key_of}
use showroom_msp_chat_ui.Errors.{ok}
use showroom_msp_chat_ui.Text.{trim_space}

-- an instance of the key that reads its credentials from the Secret
abbrev pub Reads : Secret → Key → Instance → Type 0
Reads secret key inst = (key_of inst.meta ≡ key) × (credentials_key inst ≡ key_of secret.meta)

not_both : {b : Bool} → b ≡ true → ¬ (b ≡ false)
not_both p q = cc

same_key_iff :
    (secret : Secret) (inst : Instance)
    → inst.meta.namespace ≡ secret.meta.namespace
    → (references secret inst ≡ true) ↔ (credentials_key inst ≡ key_of secret.meta)
same_key_iff secret inst same =
    ground (arith, eq_iff (trim_space inst.spec.credentials_secret) secret.meta.name)

-- The watch of Secrets queues a key exactly when one of the listed instances has that key and
-- reads its credentials, as Reconcile does, from the changed Secret; where the listing has the
-- instances of the Secret's namespace.
pub find_chatui_instances_for_secret_iff :
    (secret : Secret) (insts : List Instance) (key : Key)
    → All (λ (inst : Instance). inst.meta.namespace ≡ secret.meta.namespace) insts
    → Listed key (find_chatui_instances_for_secret secret (ok insts))
      ↔ ((inst : Instance) × Listed inst insts × Reads secret key inst)
unfolding find_chatui_instances_for_secret requests_for
find_chatui_instances_for_secret_iff secret [] key h = (λ l. absurd l, λ (_, l, _). absurd l)
find_chatui_instances_for_secret_iff secret (i ∷ is) key (same, h) =
    let (f, g) = find_chatui_instances_for_secret_iff secret is key h in
    let (there, back) = same_key_iff secret i same in
    elim (Bool-cases (references secret i)) [
      | inl refers ↦ rw refers (
        λ l. elim l [
          | inl e ↦ (i, inl refl, (e, there refers))
          | inr m ↦ let (inst, listed, reads) = f m in (inst, inr listed, reads)
        ],
        λ (inst, l, (e, reads)). elim l [
          | inl here ↦ inl (ap (λ (x : Instance). key_of x.meta) here ∙ e)
          | inr later ↦ inr (g (inst, later, (e, reads)))
        ],
      )
      | inr other ↦ rw other (
        λ m. let (inst, listed, reads) = f m in (inst, inr listed, reads),
        λ (inst, l, (e, reads)). elim l [
          | inl here ↦ absurd (not_both (back (ap credentials_key here ∙ reads)) other)
          | inr later ↦ g (inst, later, (e, reads))
        ],
      )
    ]
