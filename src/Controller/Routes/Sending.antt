-- ===== src/Controller/Routes/Sending.antt =====
-- withdrawAccess sends nothing but the deletion of an Ingress.
use showroom_msp_chat_ui.Prelude.{String}
use showroom_msp_chat_ui.Controller.Effects.{Api, Write, delete_ingress}
use showroom_msp_chat_ui.Controller.Effects.Logs.{Logs, logs}
use showroom_msp_chat_ui.Controller.Setup.{Kit}
use showroom_msp_chat_ui.Controller.Objects.{Ingress, Key, Instance}
use showroom_msp_chat_ui.Errors.{Result, ok, err}
use showroom_msp_chat_ui.Controller.Routes.{deleted, withdraw_found, withdraw_access}

module _ (k : Kit) (api : Api) (P : Write → Type 0)
    (deletion : (key : Key) (uid version : String) → P (delete_ingress key uid version)) where
  deleted-Logs : (answer : Result (Unit {0})) → Logs P (deleted k api answer)
  deleted-Logs (ok a) = search logs
  deleted-Logs (err e) = search logs

  withdraw_found-Logs :
      (inst : Instance) (found : Result Ingress) → Logs P (withdraw_found k api inst found)
  withdraw_found-Logs inst (ok ing) = search (logs, deleted-Logs, deletion) depth 9
  withdraw_found-Logs inst (err e) = search logs

  pub withdraw_access-Logs : Logs P (withdraw_access k api)
  unfolding withdraw_access
  withdraw_access-Logs = search (logs, withdraw_found-Logs)
