-- ===== src/Controller/Access/Provenance.antt =====
-- Where the pins of an instance come from, through prepareAccess.
use showroom_msp_chat_ui.Prelude.{
  String, ◌≡◌, sym, ap, ◌⊎◌, inl, inr, true, false, not, Option, none, some, [], ◌∷◌, arith, ◌==◌,
  Bool-cases, ==-true, all, All, Listed, refl, List, All-mono, All-Listed, ◌+◌, ltb, length,
}
use showroom_msp_chat_ui.Controller.Effects.{
  ◌>>=◌, Api, Log, Write, create_secret, update_instance, patch_status, update_status,
  create_deployment, update_deployment, create_service, update_service, create_ingress,
  update_ingress, delete_ingress, delete_secret, Run, write, put, pure, lift,
}
use showroom_msp_chat_ui.Dictionary.{insert, remove, lookup, Map}
use showroom_msp_chat_ui.Controller.Sessions.{
  same_map, persist_access_secret_pins, pin_access_secret, create_pinned_secret, max_access_bundles,
}
use showroom_msp_chat_ui.Controller.Objects.{Secret, Instance}
use showroom_msp_chat_ui.Errors.{ok, Result, fail_if}
use showroom_msp_chat_ui.Controller.Setup.{Kit, Reconciler}
use showroom_msp_chat_ui.Controller.Effects.Keeping.{
  Keeps, Keeps-bind, Keeps-current, Keeps-lift, keeps, Keeps-fail, Keeps-ask, Keeps-write_bind,
  Keeps-Reads, Keeps-split, answered,
}
use showroom_msp_chat_ui.Controller.History.{delete_retired, retire, oldest}
use showroom_msp_chat_ui.Controller.Access.{prepare_access}
use showroom_msp_chat_ui.Controller.Access.Preserving.{prepare_access-Keeps}
use showroom_msp_chat_ui.Controller.Access.Reading.{deleted-Reads, gone-Reads}

module _ (api : Api) where
  -- A Secret of this name and UID is what a creation in the log was answered with.
  abbrev pub IsCreated : Log → String × String → Type 0
  IsCreated [] f = ⊥
  IsCreated (create_secret sent ∷ log) f =
      ((stored : Secret) × (api.send_secret log (create_secret sent) ≡ ok stored)
        × (stored.meta.name ≡ f.0)
        × (stored.meta.uid ≡ f.1))
      ⊎ IsCreated log f
  IsCreated (_ ∷ log) f = IsCreated log f

  -- A pin of `pins`, or of a Secret that was created.
  abbrev pub IsKnown : Map String → Log → String × String → Type 0
  IsKnown pins log f = Listed f pins ⊎ IsCreated log f

  IsCreated-later :
      (w : Write) (log : Log) (f : String × String) → IsCreated log f → IsCreated (w ∷ log) f
  IsCreated-later (create_secret sent) log f h = inr h
  IsCreated-later (update_instance _) log f h = h
  IsCreated-later (patch_status _) log f h = h
  IsCreated-later (update_status _) log f h = h
  IsCreated-later (create_deployment _) log f h = h
  IsCreated-later (update_deployment _) log f h = h
  IsCreated-later (create_service _) log f h = h
  IsCreated-later (update_service _) log f h = h
  IsCreated-later (create_ingress _) log f h = h
  IsCreated-later (update_ingress _) log f h = h
  IsCreated-later (delete_ingress _ _ _) log f h = h
  IsCreated-later (delete_secret _ _ _) log f h = h

  IsKnown-later :
      (pins : Map String) (w : Write) (log : Log) (f : String × String)
      → IsKnown pins log f
      → IsKnown pins (w ∷ log) f
  IsKnown-later pins w log f (inl h) = inl h
  IsKnown-later pins w log f (inr h) = inr (IsCreated-later w log f h)

module _ (P : String × String → Type 0) where
  All-insert :
      (name uid : String) (pins : Map String)
      → P (name, uid)
      → All P pins
      → All P (insert name uid pins)
  unfolding insert
  All-insert name uid [] p h = (p, tt)
  All-insert name uid ((n, u) ∷ pins) p (q, h) = elim (Bool-cases (n == name)) [
    | inl same ↦ rw same (p, h)
    | inr other ↦ rw other (q, All-insert name uid pins p h)
  ]

  All-remove : (name : String) (pins : Map String) → All P pins → All P (remove name pins)
  unfolding remove
  All-remove name [] h = tt
  All-remove name ((n, u) ∷ pins) (q, h) = elim (Bool-cases (n == name)) [
    | inl same ↦ rw same (All-remove name pins h)
    | inr other ↦ rw other (q, All-remove name pins h)
  ]

  found : {n name u uid : String} → n ≡ name → u ≡ uid → P (n, u) → P (name, uid)
  found e f q = rw (sym e, sym f) q

  All-lookup :
      (name uid : String) (pins : Map String)
      → lookup name pins ≡ some uid
      → All P pins
      → P (name, uid)
  unfolding lookup
  All-lookup name uid [] e h = cc
  All-lookup name uid ((n, u) ∷ pins) e (q, h) = elim (Bool-cases (n == name)) [
    | inl same ↦ found (==-true same) (ground (arith, e, same)) q
    | inr other ↦ All-lookup name uid pins (ground (arith, e, other)) h
  ]

  value_same :
      (o : Option String) (uid : String)
      → (elim o [ none ↦ false | some v ↦ v == uid ]) ≡ true
      → o ≡ some uid
  value_same none uid e = cc
  value_same (some v) uid e = ap some (==-true e)

  All-same :
      (b a : Map String)
      → all (λ f. elim (lookup f.0 b) [ none ↦ false | some v ↦ v == f.1 ]) a ≡ true
      → All P b
      → All P a
  All-same b [] e h = tt
  All-same b ((n, u) ∷ a) e h = (
    All-lookup n u b (value_same (lookup n b) u (ground (arith, e))) h,
    All-same b a (ground (arith, e)) h,
  )

  All-same_map : (a b : Map String) → not (same_map a b) ≡ false → All P b → All P a
  unfolding same_map
  All-same_map a b e h = All-same b a (ground (arith, e)) h

All-self :
    (Q : String × String → Type 0) (pins : Map String)
    → ((f : String × String) → Listed f pins → Q f)
    → All Q pins
All-self Q [] k = tt
All-self Q (f ∷ pins) k = (k f (inl refl), All-self Q pins (λ g l. k g (inr l)))

module _ (k : Kit) (api : Api) (first_pins : Map String) where
  -- The instance has known pins only.
  abbrev AreKnown : Run → Type 0
  AreKnown s = All (IsKnown api first_pins s.log) s.inst.status.access_secret_uids

  -- So has the map that is about to be persisted.
  abbrev AreBothKnown : Map String → Run → Type 0
  AreBothKnown pins s = AreKnown s × All (IsKnown api first_pins s.log) pins

  later :
      (w : Write) (log : Log) (pins : Map String)
      → All (IsKnown api first_pins log) pins
      → All (IsKnown api first_pins (w ∷ log)) pins
  later w log pins h = All-mono _ _ (IsKnown-later api first_pins w log) pins h

  Keeps-write :
      {A : Type 0} (pins : Map String) (send : Log → Write → Result A) (w : Write)
      → Keeps (AreBothKnown pins) (write send w)
  Keeps-write pins send w = record { kept = λ s h. (later w s.log _ h.0, later w s.log pins h.1) }

  Keeps-put :
      (pins : Map String) (inst : Instance)
      → not (same_map inst.status.access_secret_uids pins) ≡ false
      → Keeps (AreBothKnown pins) (put inst)
  Keeps-put pins inst same = record { kept = λ s h. (All-same_map _ _ pins same h.1, h.1) }

  persist-Keeps :
      (pins : Map String) → Keeps (AreBothKnown pins) (persist_access_secret_pins k api pins)
  unfolding persist_access_secret_pins
  persist-Keeps pins = Keeps-bind _ _ Keeps-current (λ inst.
      Keeps-bind _ _ (Keeps-write pins api.send_instance _) (λ _.
        Keeps-bind _ _ (Keeps-ask _) (λ persisted.
          Keeps-split (not (same_map persisted.status.access_secret_uids pins)) _ _
            (λ _. Keeps-fail _) (λ same. Keeps-put pins persisted same))))

  checks-Keeps :
      (named roomy : Result (Unit {0})) (pins : Map String)
      → Keeps
          (AreBothKnown pins)
          (lift named >>= λ _. lift roomy >>= λ _. persist_access_secret_pins k api pins)
  checks-Keeps named roomy pins =
      Keeps-bind _ _ (Keeps-lift named)
        (λ _. Keeps-bind _ _ (Keeps-lift roomy) (λ _. persist-Keeps pins))

  pin_access_secret-kept :
      (secret : Secret) (s : Run)
      → AreKnown s
      → IsCreated api s.log (secret.meta.name, secret.meta.uid)
      → AreKnown (pin_access_secret k api secret s).1
  unfolding pin_access_secret ◌>>=◌
  pin_access_secret-kept secret s h created =
      let pins = insert secret.meta.name secret.meta.uid s.inst.status.access_secret_uids in
      let known = All-insert _ secret.meta.name secret.meta.uid _ (inr created) h in
      ((checks-Keeps
          (fail_if (secret.meta.uid == "") "API server did not assign an access Secret UID")
          (fail_if (ltb (max_access_bundles + 1) (length pins)) "access Secret history is full")
          pins).kept
        s (h, known)).0

  create-Keeps :
      (inst : Instance) (name : String) (contents : Map String)
      → Keeps AreKnown (create_pinned_secret k api inst name contents)
  unfolding ◌>>=◌
  create-Keeps inst name contents = Keeps-bind _ _ (Keeps-lift _) (λ meta.
      let sent =
        create_secret (record { meta = meta; immutable = some true; contents = contents }) in
      Keeps-write_bind api.send_secret sent _ (λ s h. later sent s.log _ h)
        (λ s secret h e.
          let kept =
            pin_access_secret-kept secret _ (later sent s.log _ h) (inl (secret, e, refl, refl)) in
          answered AreKnown _ (λ _. pure secret) _ kept (λ _ _. kept)))

  delete_retired-Keeps :
      (pins : Map String) (retired : Secret)
      → Keeps (AreBothKnown pins) (delete_retired k api retired)
  delete_retired-Keeps pins retired =
      search (keeps, Keeps-write, Keeps-Reads, deleted-Reads, gone-Reads) depth 9

  retirement-Keeps :
      (retired : Secret) (pins : Map String)
      → Keeps
          (AreBothKnown pins)
          (delete_retired k api retired >>= λ _. persist_access_secret_pins k api pins)
  retirement-Keeps retired pins =
      Keeps-bind _ _ (delete_retired-Keeps pins retired) (λ _. persist-Keeps pins)

  retire-Keeps : (candidates : List Secret) → Keeps AreKnown (retire k api candidates)
  unfolding ◌>>=◌
  retire-Keeps [] = Keeps-fail _
  retire-Keeps (c ∷ cs) = record {
    kept = λ s h.
        let retired = oldest c cs in
        let pins = remove retired.meta.name s.inst.status.access_secret_uids in
        ((retirement-Keeps retired pins).kept s (h, All-remove _ retired.meta.name _ h)).0;
  }

module _ (k : Kit) (api : Api) (r : Reconciler) where
  -- Whatever the API server answers, and whether or not prepareAccess fails: when it ends, each pin
  -- of the instance was pinned under the same UID before, or is the name and the UID of a Secret
  -- that the API server answered to a creation in the log. No other Secret is ever adopted.
  pub prepare_access-IsKnown :
      (host : String) (s : Run) (f : String × String)
      → Listed f (prepare_access k api r host s).1.inst.status.access_secret_uids
      → IsKnown api s.inst.status.access_secret_uids (prepare_access k api r host s).1.log f
  prepare_access-IsKnown host s f l =
      All-Listed _ f _
        ((prepare_access-Keeps k api r (create-Keeps k api s.inst.status.access_secret_uids)
            (retire-Keeps k api s.inst.status.access_secret_uids) host).kept
          s (All-self _ _ (λ g m. inl m)))
        l
