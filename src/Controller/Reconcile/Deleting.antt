-- ===== src/Controller/Reconcile/Deleting.antt =====
-- The deletion of an instance.
use showroom_msp_chat_ui.Prelude.{
  String, ◌≡◌, refl, ◌⊎◌, true, false, ◌&&◌, not, List, [], ◌∷◌, arith, ◌==◌, eq_iff, sym, ap, ◌∙◌,
  inl, inr, Bool, if◌then◌else◌, Bool-cases,
}
use showroom_msp_chat_ui.Controller.Effects.{
  ◌>>=◌, Api, Run, attempt, after, finished, error_of, update_instance, Action, Answer,
}
use showroom_msp_chat_ui.Controller.Setup.{Kit, Reconciler}
use showroom_msp_chat_ui.Controller.Objects.{Instance, Key}
use showroom_msp_chat_ui.Controller.Reconcile.{
  finalizer_name, has_finalizer, without_finalizer, with_finalizers, finalize, reconcile, started,
}
use showroom_msp_chat_ui.HostnamePolicy.{mem}
use showroom_msp_chat_ui.Errors.{ok, Result, Result-cases}
use mathlib.Core.Path.{subst}

without_finalizer-mem :
    (name : String) (fs : List String)
    → mem name (without_finalizer fs) ≡ (mem name fs && not (name == finalizer_name))
unfolding without_finalizer
without_finalizer-mem name [] = refl
without_finalizer-mem name (f ∷ fs) = ground (
  arith,
  without_finalizer-mem name fs,
  eq_iff f finalizer_name,
  eq_iff name finalizer_name,
  eq_iff f name,
)

-- The instance without the finalizer: the other finalizers stay, and so does all else.
pub record IsReleased (inst released : Instance) : Type 0 where
  pub others :
      (name : String)
      → mem name released.meta.finalizers
        ≡ (mem name inst.meta.finalizers && not (name == finalizer_name))
  pub same : with_finalizers released inst.meta.finalizers ≡ inst

if-at : {A : Type 0} (b : Bool) (m n : Action A) (s : Run) → b ≡ true → (if b then m else n) s ≡ m s
if-at b m n s h = ap (λ c. (if c then m else n) s) h

module _ (k : Kit) (api : Api) (r : Reconciler) where
  -- what the deletion does in a run, and its result
  abbrev pub IsDeletion : Run → Result Answer × Run → Type 0
  IsDeletion s out =
      ((has_finalizer s.inst ≡ false) × (out ≡ (ok finished, s)))
      ⊎ ((released : Instance) × IsReleased s.inst released
          × (has_finalizer s.inst ≡ true)
          × (out.1.log ≡ update_instance released ∷ s.log)
          × (out.0 ≡ ok (after 0 (error_of (api.send_instance s.log (update_instance released))))))

  finalize-IsDeletion : (s : Run) → IsDeletion s (finalize k api r s)
  unfolding finalize attempt ◌>>=◌
  finalize-IsDeletion s = elim (Bool-cases (has_finalizer s.inst)) [
    | inr gone ↦ inl (gone, rw gone refl)
    | inl there ↦
        let released = with_finalizers s.inst (without_finalizer s.inst.meta.finalizers) in
        let freed : IsReleased s.inst released = record {
          others = λ name. without_finalizer-mem name s.inst.meta.finalizers;
          same = refl;
        } in
        elim (Result-cases (api.send_instance s.log (update_instance released))) [
          | inl (stored, sent) ↦
              inr (released, freed, there, rw (there, sent) refl, rw (there, sent) refl)
          | inr (e, sent) ↦
              inr (released, freed, there, rw (there, sent) refl, rw (there, sent) refl)
        ]
  ]

  -- Where the instance is being deleted, Reconcile sends nothing but, where it still has the
  -- operator's finalizer, one Update of it without that finalizer, with all else as it was; the
  -- answer has no error where the Update succeeds, and asks for no other run.
  pub reconcile-IsDeletion :
      (key : Key) (s : Run) (inst : Instance)
      → api.get_instance s.log key ≡ ok inst
      → inst.meta.deleting ≡ true
      → IsDeletion (record s { inst = inst }) (reconcile k api r key s)
  unfolding reconcile attempt ◌>>=◌
  reconcile-IsDeletion key s inst found gone =
      let t = record s { inst = inst } in
      let reached : reconcile k api r key s ≡ started k api r inst s = rw found refl in
      let ends : started k api r inst s ≡ finalize k api r t =
        if-at inst.meta.deleting (finalize k api r) _ t gone in
      subst (λ out. IsDeletion t out) (sym (reached ∙ ends)) (finalize-IsDeletion t)
