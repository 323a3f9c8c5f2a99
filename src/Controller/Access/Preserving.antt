-- ===== src/Controller/Access/Preserving.antt =====
-- An invariant that the creation of a Secret and the retirement of a bundle keep is one that
-- prepareAccess keeps.
use showroom_msp_chat_ui.Prelude.{String, List}
use showroom_msp_chat_ui.Controller.Setup.{Kit, Reconciler}
use showroom_msp_chat_ui.Controller.Effects.{Api, Run}
use showroom_msp_chat_ui.Controller.Objects.{Instance, Secret}
use showroom_msp_chat_ui.Dictionary.{Map}
use showroom_msp_chat_ui.Controller.Effects.Keeping.{Keeps, keeps, Keeps-Reads}
use showroom_msp_chat_ui.Controller.Sessions.{create_pinned_secret, session_secret, session_found}
use showroom_msp_chat_ui.Controller.History.{retire, make_access_secret_room}
use showroom_msp_chat_ui.Errors.{Result, ok, err}
use showroom_msp_chat_ui.Controller.Access.{prepare_access, bundle_found}
use showroom_msp_chat_ui.Controller.Access.Reading.{
  collect_candidates-Reads, credential_found-Reads, bundle_contents-Reads,
}

module _ (k : Kit) (api : Api) (r : Reconciler) {I : Run → Type 0}
    (create-Keeps : (inst : Instance) (name : String) (contents : Map String)
      → Keeps I (create_pinned_secret k api inst name contents))
    (retire-Keeps : (candidates : List Secret) → Keeps I (retire k api candidates)) where
  session_found-Keeps :
      (inst : Instance) (name : String) (found : Result Secret)
      → Keeps I (session_found k api inst name found)
  session_found-Keeps inst name (ok secret) = search keeps
  session_found-Keeps inst name (err e) = search (keeps, create-Keeps)

  session_secret-Keeps : Keeps I (session_secret k api)
  unfolding session_secret
  session_secret-Keeps = search (keeps, session_found-Keeps)

  make_access_secret_room-Keeps : Keeps I (make_access_secret_room k api)
  unfolding make_access_secret_room
  make_access_secret_room-Keeps =
      search (keeps, Keeps-Reads, collect_candidates-Reads, retire-Keeps) depth 12

  bundle_found-Keeps :
      (inst : Instance) (name : String) (contents : Map String) (found : Result Secret)
      → Keeps I (bundle_found k api r inst name contents found)
  bundle_found-Keeps inst name contents (ok existing) = search keeps
  bundle_found-Keeps inst name contents (err e) =
      search (keeps, make_access_secret_room-Keeps, create-Keeps) depth 9

  pub prepare_access-Keeps : (host : String) → Keeps I (prepare_access k api r host)
  unfolding prepare_access
  prepare_access-Keeps host =
      search
        (
          keeps, Keeps-Reads, credential_found-Reads, session_secret-Keeps, bundle_contents-Reads,
          bundle_found-Keeps,
        )
        depth 18
