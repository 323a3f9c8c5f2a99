-- ===== src/Controller/Reconcile/Preparing.antt =====
-- The choice of the hostname and the preparation of the access Secrets publish nothing.
use showroom_msp_chat_ui.Prelude.{String, List, [], ◌∷◌}
use showroom_msp_chat_ui.Controller.Access.Reading.{
  deleted-Reads, gone-Reads, collect_candidates-Reads, credential_found-Reads,
  bundle_contents-Reads,
}
use showroom_msp_chat_ui.Controller.Effects.{Api}
use showroom_msp_chat_ui.Controller.Effects.Logs.{Logs, logs, Logs-Reads}
use showroom_msp_chat_ui.Controller.Setup.{Kit, Reconciler}
use showroom_msp_chat_ui.Controller.Reconcile.Quiet.{IsQuiet, patch-Logs}
use showroom_msp_chat_ui.Controller.Slug.{ensure_slug, selected_instance_host}
use showroom_msp_chat_ui.Controller.Objects.{Instance, Secret, Ingress}
use showroom_msp_chat_ui.Controller.Routes.{check_hostname, check_own}
use showroom_msp_chat_ui.Controller.Sessions.{
  persist_access_secret_pins, pin_access_secret, session_secret, session_found,
  create_pinned_secret,
}
use showroom_msp_chat_ui.Errors.{Result, ok, err}
use showroom_msp_chat_ui.Controller.History.{make_access_secret_room, retire, delete_retired}
use showroom_msp_chat_ui.Controller.Access.{prepare_access, bundle_found}
use showroom_msp_chat_ui.Dictionary.{Map}

module _ (k : Kit) (api : Api) where
  check_own-Logs :
      (inst : Instance) (found : Result Ingress) → Logs IsQuiet (check_own k api inst found)
  check_own-Logs inst (ok ing) = search logs
  check_own-Logs inst (err e) = search logs

  check_hostname-Logs : (host : String) → Logs IsQuiet (check_hostname k api host)
  unfolding check_hostname
  check_hostname-Logs host = search (logs, check_own-Logs)

  persist_access_secret_pins-Logs :
      (pins : Map String) → Logs IsQuiet (persist_access_secret_pins k api pins)
  unfolding persist_access_secret_pins
  persist_access_secret_pins-Logs pins = search logs

  pin_access_secret-Logs : (secret : Secret) → Logs IsQuiet (pin_access_secret k api secret)
  unfolding pin_access_secret
  pin_access_secret-Logs secret = search (logs, persist_access_secret_pins-Logs)

  create_pinned_secret-Logs :
      (inst : Instance) (name : String) (contents : Map String)
      → Logs IsQuiet (create_pinned_secret k api inst name contents)
  create_pinned_secret-Logs inst name contents = search (logs, pin_access_secret-Logs)

  session_found-Logs :
      (inst : Instance) (name : String) (found : Result Secret)
      → Logs IsQuiet (session_found k api inst name found)
  session_found-Logs inst name (ok secret) = search logs
  session_found-Logs inst name (err e) = search (logs, create_pinned_secret-Logs)

  session_secret-Logs : Logs IsQuiet (session_secret k api)
  unfolding session_secret
  session_secret-Logs = search (logs, session_found-Logs)

  delete_retired-Logs : (retired : Secret) → Logs IsQuiet (delete_retired k api retired)
  delete_retired-Logs retired = search (logs, Logs-Reads, deleted-Reads, gone-Reads) depth 9

  retire-Logs : (candidates : List Secret) → Logs IsQuiet (retire k api candidates)
  retire-Logs [] = search logs
  retire-Logs (s ∷ ss) = search (logs, delete_retired-Logs, persist_access_secret_pins-Logs) depth 9

  make_access_secret_room-Logs : Logs IsQuiet (make_access_secret_room k api)
  unfolding make_access_secret_room
  make_access_secret_room-Logs =
      search (logs, Logs-Reads, collect_candidates-Reads, retire-Logs) depth 12

module _ (k : Kit) (api : Api) (r : Reconciler) where
  ensure_slug-Logs : Logs IsQuiet (ensure_slug k api r)
  unfolding ensure_slug
  ensure_slug-Logs = search (logs, patch-Logs) depth 9

  pub selected_instance_host-Logs : Logs IsQuiet (selected_instance_host k api r)
  unfolding selected_instance_host
  selected_instance_host-Logs = search (logs, ensure_slug-Logs, check_hostname-Logs)

  bundle_found-Logs :
      (inst : Instance) (name : String) (contents : Map String) (found : Result Secret)
      → Logs IsQuiet (bundle_found k api r inst name contents found)
  bundle_found-Logs inst name contents (ok existing) = search logs
  bundle_found-Logs inst name contents (err e) =
      search (logs, make_access_secret_room-Logs, create_pinned_secret-Logs) depth 9

  pub prepare_access-Logs : (host : String) → Logs IsQuiet (prepare_access k api r host)
  unfolding prepare_access
  prepare_access-Logs host =
      search
        (
          logs, Logs-Reads, credential_found-Reads, session_secret-Logs, bundle_contents-Reads,
          bundle_found-Logs,
        )
        depth 18
