-- ===== src/Controller/Access/Examples.antt =====
-- The theorems on prepareAccess at an instance without any Secret.
use showroom_msp_chat_ui.AccessPolicy.{select_from}
use showroom_msp_chat_ui.Prelude.{
  String, ◌≡◌, refl, inl, inr, some, [], ◌∷◌, ◌==◌, if◌then◌else◌, ◌⊎◌,
}
use showroom_msp_chat_ui.Controller.Effects.{
  ◌>>=◌, Log, Write, Api, attempt, patch_status, create_secret,
}
use showroom_msp_chat_ui.Controller.Access.{prepare_access}
use showroom_msp_chat_ui.Controller.Access.Pins.{AreBounded, prepare_access-AreBounded}
use showroom_msp_chat_ui.Controller.Access.Provenance.{IsKnown, prepare_access-IsKnown}
use showroom_msp_chat_ui.Controller.Objects.{Instance, Secret}
use showroom_msp_chat_ui.Errors.{Result, ok, err, not_found}
use showroom_msp_chat_ui.Controller.Reconcile.Samples.{team_api, team_reconciler, client_credential}
use showroom_msp_chat_ui.Controller.Samples.{run, kit, instance_of_team}
use showroom_msp_chat_ui.Controller.Sessions.{session_secret, pin_access_secret}
use showroom_msp_chat_ui.Controller.History.{make_access_secret_room}
use showroom_msp_chat_ui.Dictionary.{insert}
use showroom_msp_chat_ui.Text.{has_prefix}
use showroom_msp_chat_ui.HostnamePolicy.{hex, first}
use showroom_msp_chat_ui.Controller.Sessions.Creating.{
  IsCreation, session_secret-IsCreation, IsReading,
}

abbrev key_material : String
key_material = "0123456789abcdef0123456789abcdef"

-- the instance as its status was last sent
abbrev latest : Log → Instance
latest [] = instance_of_team
latest (patch_status inst ∷ log) = inst
latest (_ ∷ log) = latest log

abbrev created : Write → Result Secret
created (create_secret secret) = ok (record secret { meta = record (secret.meta) { uid = "k9" } })
created _ = err not_found

-- Only the operator's credential is there, and every write succeeds.
abbrev fresh_api : Api
fresh_api = record team_api {
  get_instance = λ log name. ok (latest log);
  get_secret =
      λ log name. if name.name == "credential" then ok client_credential else err not_found;
  random = λ log name. some key_material;
  send_secret = λ log w. created w;
}

-- Two Secrets are created and pinned.
fresh_pins :
    (prepare_access kit fresh_api team_reconciler "ui-.example.org"
      run).1.inst.status.access_secret_uids
    ≡ ("chatui-session-", "k9") ∷ ("chatui-access-", "k9") ∷ []
unfolding prepare_access attempt ◌>>=◌ select_from session_secret make_access_secret_room
    pin_access_secret insert has_prefix hex first
fresh_pins = refl

limit_example : AreBounded (prepare_access kit fresh_api team_reconciler "ui-.example.org" run).1
limit_example =
    prepare_access-AreBounded kit fresh_api team_reconciler "ui-.example.org" run (refl, tt)

provenance_example :
    IsKnown fresh_api []
      (prepare_access kit fresh_api team_reconciler "ui-.example.org" run).1.log
      ("chatui-access-", "k9")
provenance_example =
    prepare_access-IsKnown kit fresh_api team_reconciler "ui-.example.org" run
      ("chatui-access-", "k9") (rw fresh_pins (inr (inl refl)))

fresh_session_example :
    IsReading kit fresh_api run (session_secret kit fresh_api run)
    ⊎ IsCreation kit fresh_api run (session_secret kit fresh_api run)
fresh_session_example = session_secret-IsCreation kit fresh_api run
