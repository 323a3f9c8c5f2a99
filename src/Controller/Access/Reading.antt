-- ===== src/Controller/Access/Reading.antt =====
-- The parts of prepareAccess that send nothing and leave the instance alone.
use showroom_msp_chat_ui.Prelude.{String, List, [], ◌∷◌, ◌==◌}
use showroom_msp_chat_ui.Controller.Setup.{Kit, Reconciler}
use showroom_msp_chat_ui.Controller.Effects.{Api}
use showroom_msp_chat_ui.Errors.{Result, ok, err}
use showroom_msp_chat_ui.Controller.Objects.{Instance, Secret}
use showroom_msp_chat_ui.Controller.History.{
  collect_candidates, gone, history_found, history_secret,
}
use showroom_msp_chat_ui.Dictionary.{Map}
use showroom_msp_chat_ui.AccessPolicy.{Entry}
use showroom_msp_chat_ui.Controller.Routes.{deleted}
use showroom_msp_chat_ui.Controller.Effects.Reads.{Reads, reads, Reads-if, Reads-bind, Reads-pure}
use showroom_msp_chat_ui.Controller.Access.{credential_found, bundle_contents}
use showroom_msp_chat_ui.Controller.Sessions.{session_secret_name}

module _ (k : Kit) (api : Api) where
  pub deleted-Reads : (answer : Result (Unit {0})) → Reads (deleted k api answer)
  deleted-Reads (ok _) = search reads
  deleted-Reads (err e) = search reads

  pub gone-Reads : (remaining : Result Secret) → Reads (gone k api remaining)
  gone-Reads (ok secret) = search reads
  gone-Reads (err e) = search reads

  history_found-Reads :
      (inst : Instance) (name uid : String) (found : Result Secret)
      → Reads (history_found k api inst name uid found)
  history_found-Reads inst name uid (ok secret) = search reads
  history_found-Reads inst name uid (err e) = search reads

  history_secret-Reads :
      (inst : Instance) (name uid : String) → Reads (history_secret k api inst name uid)
  history_secret-Reads inst name uid = search (reads, history_found-Reads)

  pub collect_candidates-Reads :
      (inst : Instance) (referenced : List String) (pins : Map String)
      → Reads (collect_candidates k api inst referenced pins)
  unfolding collect_candidates
  collect_candidates-Reads inst referenced [] = search reads
  collect_candidates-Reads inst referenced ((name, uid) ∷ pins) =
      let rest = collect_candidates-Reads inst referenced pins in
      Reads-if (name == session_secret_name k api inst) _ _ rest (
        Reads-bind _ _ (history_secret-Reads inst name uid)
          (λ secret. Reads-bind _ _ rest (λ others. Reads-pure _)))

module _ (k : Kit) (api : Api) (r : Reconciler) where
  pub credential_found-Reads : (found : Result Secret) → Reads (credential_found k api r found)
  credential_found-Reads (ok secret) = search reads
  credential_found-Reads (err e) = search reads

  pub bundle_contents-Reads :
      (e : Entry) (public_url client_secret cookie_secret : String)
      → Reads (bundle_contents k api r e public_url client_secret cookie_secret)
  bundle_contents-Reads e public_url client_secret cookie_secret = search reads
