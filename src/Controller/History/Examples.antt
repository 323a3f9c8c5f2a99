-- ===== src/Controller/History/Examples.antt =====
-- The theorem on makeAccessSecretRoom at an instance with three bundles and a session Secret.
use mathlib.Core.List.{flat_map}
use showroom_msp_chat_ui.Prelude.{refl, sym, ap, true, some, [], ◌∷◌, All, ◌≡◌}
use showroom_msp_chat_ui.Controller.Samples.{instance_of_team, kit, api, owned_meta}
use showroom_msp_chat_ui.Controller.Objects.{Secret, Key, key_of}
use showroom_msp_chat_ui.Controller.Effects.{◌>>=◌, delete_secret, Api, Run, attempt}
use showroom_msp_chat_ui.Controller.Effects.Sends.{ok_injective}
use showroom_msp_chat_ui.Controller.History.{make_access_secret_room}
use showroom_msp_chat_ui.Controller.History.Candidates.{IsByName}
use showroom_msp_chat_ui.Controller.History.Retiring.{
  IsSafeRetirement, make_access_secret_room-IsRetirement,
}
use showroom_msp_chat_ui.Errors.{ok}
use showroom_msp_chat_ui.Controller.Sessions.{session_secret_name, uid_hash}
use showroom_msp_chat_ui.HostnamePolicy.{hex, first}
use showroom_msp_chat_ui.Text.{has_prefix}
use showroom_msp_chat_ui.Controller.Setup.{owned_by_instance}

-- every Secret exists, and is the instance's
abbrev stored : Key → Secret
stored key = record {
  meta = record owned_meta { namespace = key.namespace; name = key.name; uid = "k1" };
  immutable = some true;
  contents = [];
}

abbrev secret_api : Api
secret_api = record api { get_secret = λ log key. ok (stored key) }

secret_api-IsByName : IsByName secret_api
secret_api-IsByName log key secret e = ap (λ (s : Secret). key_of s.meta) (sym (ok_injective e))

abbrev full_run : Run
full_run = record {
  log = [];
  inst = record instance_of_team {
    status = record (instance_of_team.status) {
      access_secret_uids =
          ("chatui-session-", "k0")
          ∷ ("chatui-access-1", "k1")
          ∷ ("chatui-access-2", "k1")
          ∷ ("chatui-access-3", "k1")
          ∷ [];
    };
  };
}

room_example :
    All
      (IsSafeRetirement secret_api full_run)
      (make_access_secret_room kit secret_api full_run).1.log
room_example = make_access_secret_room-IsRetirement kit secret_api secret_api-IsByName full_run tt

-- The first bundle is deleted; the answer of this API server is a conflict.
bundle_deleted :
    (make_access_secret_room kit secret_api full_run).1.log
    ≡ delete_secret (record { namespace = "team"; name = "chatui-access-1" }) "k1" "7" ∷ []
unfolding make_access_secret_room attempt ◌>>=◌ session_secret_name uid_hash hex first has_prefix
    owned_by_instance flat_map
bundle_deleted = refl
