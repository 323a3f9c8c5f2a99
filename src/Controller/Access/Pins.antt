-- ===== src/Controller/Access/Pins.antt =====
-- How many access Secrets an instance pins, through prepareAccess.
use showroom_msp_chat_ui.Controller.Access.Preserving.{prepare_access-Keeps}
use showroom_msp_chat_ui.Prelude.{
  ◌+◌, String, ◌≡◌, refl, true, false, not, List, [], ◌∷◌, arith, leb, length, All,
}
use showroom_msp_chat_ui.Dictionary.{Map, remove}
use showroom_msp_chat_ui.Controller.Effects.{Write, Run, Log, patch_status, Api, write, put}
use showroom_msp_chat_ui.Controller.Objects.{Instance, Secret}
use showroom_msp_chat_ui.Controller.Sessions.{
  same_map, max_access_bundles, persist_access_secret_pins, pin_access_secret, create_pinned_secret,
}
use showroom_msp_chat_ui.Controller.Setup.{Kit, Reconciler}
use showroom_msp_chat_ui.Errors.{Result}
use showroom_msp_chat_ui.Controller.Effects.Keeping.{
  Keeps, Keeps-bind, keeps, Keeps-current, Keeps-lift, Keeps-Reads, Keeps-fail, Keeps-ask,
  Keeps-check, Keeps-pure, Keeps-current_bind, Keeps-split,
}
use showroom_msp_chat_ui.Controller.History.{delete_retired, retire, oldest}
use showroom_msp_chat_ui.Controller.Access.{prepare_access}
use showroom_msp_chat_ui.Controller.Access.Reading.{deleted-Reads, gone-Reads}

-- at most maxAccessBundles and the session Secret
abbrev pub IsWithinLimit : Map String → Type 0
IsWithinLimit pins = leb (length pins) (max_access_bundles + 1) ≡ true

-- A status is sent with at most that many pins; other writes are free.
abbrev pub IsBounded : Write → Type 0
IsBounded (patch_status inst) = IsWithinLimit inst.status.access_secret_uids
IsBounded _ = Unit

-- The instance, and all that was sent of its status, are within the limit.
abbrev pub AreBounded : Run → Type 0
AreBounded s = IsWithinLimit s.inst.status.access_secret_uids × All IsBounded s.log

Keeps-write :
    {A : Type 0} (f : Log → Write → Result A) (w : Write)
    → IsBounded w
    → Keeps AreBounded (write f w)
Keeps-write f w p = record { kept = λ s h. (h.0, (p, h.1)) }

Keeps-put :
    (inst : Instance) → IsWithinLimit inst.status.access_secret_uids → Keeps AreBounded (put inst)
Keeps-put inst p = record { kept = λ s h. (p, h.1) }

length-remove :
    (key : String) (pins : Map String) → leb (length (remove key pins)) (length pins) ≡ true
unfolding remove
length-remove key [] = refl
length-remove key ((name, uid) ∷ pins) = ground (arith, length-remove key pins)

-- A map that is the same as one within the limit is within it.
within : (a b : Map String) → IsWithinLimit b → not (same_map a b) ≡ false → IsWithinLimit a
unfolding same_map
within a b p h = ground arith

module _ (k : Kit) (api : Api) where
  persist-Keeps :
      (pins : Map String)
      → IsWithinLimit pins
      → Keeps AreBounded (persist_access_secret_pins k api pins)
  unfolding persist_access_secret_pins
  persist-Keeps pins p = Keeps-bind _ _ Keeps-current (λ inst.
      Keeps-bind _ _ (Keeps-write api.send_instance _ p) (λ _.
        Keeps-bind _ _ (Keeps-ask _) (λ persisted.
          Keeps-split (not (same_map persisted.status.access_secret_uids pins)) _ _
            (λ _. Keeps-fail _) (λ same. Keeps-put persisted (within _ pins p same)))))

  pin_access_secret-Keeps : (secret : Secret) → Keeps AreBounded (pin_access_secret k api secret)
  unfolding pin_access_secret
  pin_access_secret-Keeps secret = Keeps-bind _ _ Keeps-current (λ inst.
      Keeps-bind _ _ (Keeps-lift _)
        (λ _. Keeps-check _ _ _ (λ roomy. persist-Keeps _ (ground arith))))

  create_pinned_secret-Keeps :
      (inst : Instance) (name : String) (contents : Map String)
      → Keeps AreBounded (create_pinned_secret k api inst name contents)
  create_pinned_secret-Keeps inst name contents = Keeps-bind _ _ (Keeps-lift _) (λ meta.
      Keeps-bind _ _ (Keeps-write api.send_secret _ tt)
        (λ secret. Keeps-bind _ _ (pin_access_secret-Keeps secret) (λ _. Keeps-pure secret)))

  delete_retired-Keeps : (retired : Secret) → Keeps AreBounded (delete_retired k api retired)
  delete_retired-Keeps retired =
      search (keeps, Keeps-write, Keeps-Reads, deleted-Reads, gone-Reads) depth 9

  retire-Keeps : (candidates : List Secret) → Keeps AreBounded (retire k api candidates)
  retire-Keeps [] = Keeps-fail _
  retire-Keeps (s ∷ ss) = Keeps-current_bind _ (λ now h.
      Keeps-bind _ _ (delete_retired-Keeps (oldest s ss)) (λ _. persist-Keeps _ (
        let shorter = length-remove (oldest s ss).meta.name now.inst.status.access_secret_uids in
        ground arith)))

module _ (k : Kit) (api : Api) (r : Reconciler) where
  -- Whatever the API server answers, and whether or not prepareAccess fails: if the instance pins at
  -- most four access Secrets, then it still does when prepareAccess ends, and every status that
  -- prepareAccess sends has at most four pins.
  pub prepare_access-AreBounded :
      (host : String) (s : Run) → AreBounded s → AreBounded (prepare_access k api r host s).1
  prepare_access-AreBounded host s h =
      (prepare_access-Keeps k api r (create_pinned_secret-Keeps k api) (retire-Keeps k api)
          host).kept
        s h
