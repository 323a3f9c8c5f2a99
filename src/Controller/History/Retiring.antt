-- ===== src/Controller/History/Retiring.antt =====
-- Which access Secret makeAccessSecretRoom deletes.
use showroom_msp_chat_ui.Controller.History.Candidates.{
  IsRetirement, IsCandidate, IsByName, oldest-All, ne_empty, collect_candidates-Sends,
}
use showroom_msp_chat_ui.Prelude.{
  String, ◌≡◌, refl, inl, inr, List, [], ◌∷◌, Bool-cases, All, not, ◌==◌, leb, length, sym, ◌∙◌,
  All-mono,
}
use showroom_msp_chat_ui.Controller.Effects.{
  ◌>>=◌, Api, Write, delete_secret, update_instance, patch_status, update_status, create_deployment,
  update_deployment, create_service, update_service, create_ingress, update_ingress, delete_ingress,
  create_secret, Action, attempt, Run,
}
use showroom_msp_chat_ui.Controller.Effects.Sends.{
  ok_injective, Sends, Sends-if, Sends-pure, Sends-fail, Sends-bind, Sends-attempt, Sends-write,
  Sends-current, Sends-mono, Sends-ask, Sends-put,
}
use showroom_msp_chat_ui.Controller.Setup.{Kit}
use showroom_msp_chat_ui.Controller.Objects.{Instance, Secret, key_of}
use showroom_msp_chat_ui.Controller.History.{
  oldest, collect_candidates, gone, delete_retired, retire, make_access_secret_room, retire_one,
  collect_secret_references,
}
use showroom_msp_chat_ui.Controller.Sessions.{
  persist_access_secret_pins, same_map, max_access_bundles,
}
use showroom_msp_chat_ui.Errors.{Result, ok, err, Result-cases}
use showroom_msp_chat_ui.Dictionary.{Map}
use showroom_msp_chat_ui.Controller.Routes.{deleted}
use showroom_msp_chat_ui.Controller.Pods.{Deployment, PodSpec}
use mathlib.Core.List.{◌++◌, flat_map}

module _ (k : Kit) (api : Api) (by_name : IsByName api) (inst : Instance)
    (referenced : List String) where
  abbrev P : Write → Type 0
  P = IsRetirement inst referenced

  abbrev Any : {A : Type 0} → A → Type 0
  Any _ = Unit

  gone-Sends : (remaining : Result Secret) → Sends P Any (gone k api remaining)
  gone-Sends (ok secret) = Sends-fail P Any _
  gone-Sends (err e) = Sends-if P Any _ _ _ (λ _. Sends-fail P Any e) (λ _. Sends-pure P Any tt tt)

  sent-Any : {A : Type 0} (m : Action A) → Sends P Any m → Sends P Any (attempt m)
  sent-Any m h = Sends-mono P Any _ (attempt m) (Sends-attempt P Any m h) (λ a q. tt)

  deleted-Sends : (answer : Result (Unit {0})) → Sends P Any (deleted k api answer)
  deleted-Sends (ok a) = Sends-pure P Any tt tt
  deleted-Sends (err e) =
      Sends-if P Any _ _ _ (λ _. Sends-fail P Any e) (λ _. Sends-pure P Any tt tt)

  delete_retired-Sends :
      (retired : Secret)
      → IsCandidate inst referenced retired
      → Sends P Any (delete_retired k api retired)
  delete_retired-Sends retired (inl missing) =
      Sends-if P Any (not (retired.meta.uid == "")) _ _
        (λ present. absurd (ne_empty present missing)) (λ _. Sends-pure P Any tt tt)
  delete_retired-Sends retired (inr retirable) =
      Sends-if P Any (not (retired.meta.uid == "")) _ _
        (λ _.
          Sends-bind P Any Any _ _
            (sent-Any _ (
              Sends-write P Any api.send
                (delete_secret (key_of retired.meta) retired.meta.uid retired.meta.resource_version)
                (retired, refl, refl, refl, retirable) (λ a. tt)))
            (λ answer q. Sends-bind P Any Any _ _ (deleted-Sends answer) (λ _ q'.
              Sends-bind P Any Any _ _ (sent-Any _ (Sends-ask P Any _ (λ a. tt)))
                (λ remaining q''. gone-Sends remaining))))
        (λ _. Sends-pure P Any tt tt)

  persist-Sends : (pins : Map String) → Sends P Any (persist_access_secret_pins k api pins)
  unfolding persist_access_secret_pins
  persist-Sends pins = Sends-bind P Any Any _ _ (Sends-current P) (λ now q.
      Sends-bind P Any Any _ _ (Sends-write P Any api.send_instance _ tt (λ a. tt)) (λ _ q'.
        Sends-bind P Any Any _ _ (Sends-ask P Any _ (λ a. tt)) (λ persisted q''.
          Sends-if P Any (not (same_map persisted.status.access_secret_uids pins)) _ _
            (λ _. Sends-fail P Any _) (λ _. Sends-put P persisted))))

  retire-Sends :
      (candidates : List Secret)
      → All (IsCandidate inst referenced) candidates
      → Sends P Any (retire k api candidates)
  retire-Sends [] h = Sends-fail P Any _
  retire-Sends (s ∷ ss) (c, cs) = Sends-bind P Any Any _ _ (Sends-current P) (λ now q.
      Sends-bind P Any Any _ _ (delete_retired-Sends (oldest s ss) (oldest-All _ s ss c cs))
        (λ _ q'. persist-Sends _))

  pub retirement-Sends : Sends P Any (
      collect_candidates k api inst referenced inst.status.access_secret_uids >>= λ candidates.
      retire k api candidates)
  retirement-Sends =
      Sends-bind P (All (IsCandidate inst referenced)) Any _ _
        (collect_candidates-Sends k api by_name inst referenced inst.status.access_secret_uids
          (λ f l. l))
        (λ candidates h. retire-Sends candidates h)

-- the names that the Deployments and the pods refer to
abbrev pub references : List Deployment → List PodSpec → List String
references deployments pods =
    flat_map (λ d. collect_secret_references d.template.spec) deployments
    ++ flat_map collect_secret_references pods

-- A deletion is a retirement for the Deployments and the pods of the namespace, and both could be
-- listed; other writes are free.
abbrev pub IsSafeRetirement : Api → Run → Write → Type 0
IsSafeRetirement api s (delete_secret key uid version) =
    (deployments : List Deployment) × (pods : List PodSpec) × (api.list_deployments s.log
        s.inst.meta.namespace
      ≡ ok deployments)
    × (api.list_pods s.log s.inst.meta.namespace ≡ ok pods)
    × IsRetirement s.inst (references deployments pods) (delete_secret key uid version)
IsSafeRetirement _ _ _ = Unit

module _ (api : Api) (s : Run) (deployments : List Deployment) (pods : List PodSpec)
    (listed : api.list_deployments s.log s.inst.meta.namespace ≡ ok deployments)
    (listed' : api.list_pods s.log s.inst.meta.namespace ≡ ok pods) where
  -- For the listings of the call the two predicates say the same.
  IsSafeRetirement-listed :
      (w : Write) → IsSafeRetirement api s w → IsRetirement s.inst (references deployments pods) w
  IsSafeRetirement-listed (delete_secret key uid version) (ds, ps, e, e', h) =
      rw (ok_injective (sym listed ∙ e), ok_injective (sym listed' ∙ e')) h
  IsSafeRetirement-listed (update_instance _) h = tt
  IsSafeRetirement-listed (patch_status _) h = tt
  IsSafeRetirement-listed (update_status _) h = tt
  IsSafeRetirement-listed (create_deployment _) h = tt
  IsSafeRetirement-listed (update_deployment _) h = tt
  IsSafeRetirement-listed (create_service _) h = tt
  IsSafeRetirement-listed (update_service _) h = tt
  IsSafeRetirement-listed (create_ingress _) h = tt
  IsSafeRetirement-listed (update_ingress _) h = tt
  IsSafeRetirement-listed (delete_ingress _ _ _) h = tt
  IsSafeRetirement-listed (create_secret _) h = tt

  listed-IsSafeRetirement :
      (w : Write) → IsRetirement s.inst (references deployments pods) w → IsSafeRetirement api s w
  listed-IsSafeRetirement (delete_secret key uid version) h =
      (deployments, pods, listed, listed', h)
  listed-IsSafeRetirement (update_instance _) h = tt
  listed-IsSafeRetirement (patch_status _) h = tt
  listed-IsSafeRetirement (update_status _) h = tt
  listed-IsSafeRetirement (create_deployment _) h = tt
  listed-IsSafeRetirement (update_deployment _) h = tt
  listed-IsSafeRetirement (create_service _) h = tt
  listed-IsSafeRetirement (update_service _) h = tt
  listed-IsSafeRetirement (create_ingress _) h = tt
  listed-IsSafeRetirement (update_ingress _) h = tt
  listed-IsSafeRetirement (delete_ingress _ _ _) h = tt
  listed-IsSafeRetirement (create_secret _) h = tt

module _ (k : Kit) (api : Api) (by_name : IsByName api) where
  retire_one-safe :
      (s : Run)
      → All (IsSafeRetirement api s) s.log
      → All (IsSafeRetirement api s) (retire_one k api s.inst s).1.log
  unfolding ◌>>=◌
  retire_one-safe s h = elim (Result-cases (api.list_deployments s.log s.inst.meta.namespace)) [
    | inr (_, failed) ↦ rw failed h
    | inl (deployments, listed) ↦ elim (Result-cases (api.list_pods s.log s.inst.meta.namespace)) [
      | inr (_, failed) ↦ rw (listed, failed) h
      | inl (pods, listed') ↦
          let to = IsSafeRetirement-listed api s deployments pods listed listed' in
          let back = listed-IsSafeRetirement api s deployments pods listed listed' in
          let sends = retirement-Sends k api by_name s.inst (references deployments pods) in
          rw (listed, listed') (All-mono _ _ back _ (sends.log s (All-mono _ _ to s.log h)))
    ]
  ]

  -- Whatever the API server answers: makeAccessSecretRoom deletes a Secret only where the
  -- Deployments and the pods of the namespace could both be listed, and none of them refers to it;
  -- and only one that the instance owns, that is immutable, has a bundle's name and is pinned under
  -- its UID, and it does so under the Secret's own UID and resource version; where a Secret that is
  -- read has the name that was asked for, and the deletions of the log at the start are such ones.
  pub make_access_secret_room-IsRetirement :
      (s : Run)
      → All (IsSafeRetirement api s) s.log
      → All (IsSafeRetirement api s) (make_access_secret_room k api s).1.log
  unfolding make_access_secret_room ◌>>=◌
  make_access_secret_room-IsRetirement s h =
      elim (Bool-cases (leb (length s.inst.status.access_secret_uids) max_access_bundles)) [
        | inl roomy ↦ rw roomy h
        | inr full ↦ rw full (retire_one-safe s h)
      ]
