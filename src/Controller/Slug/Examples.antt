-- ===== src/Controller/Slug/Examples.antt =====
-- The theorem on selectedInstanceHost at an instance whose slug is written and read back.
use showroom_msp_chat_ui.HostnamePolicy
use showroom_msp_chat_ui.Prelude.{◌≡◌, refl, some}
use showroom_msp_chat_ui.HostnamePolicy.{Selection, select}
use showroom_msp_chat_ui.Controller.Samples.{kit, run, instance_of_team, reconciler}
use showroom_msp_chat_ui.Controller.Reconcile.Samples.{team_api}
use showroom_msp_chat_ui.Controller.Effects.{◌>>=◌, attempt, Run}
use showroom_msp_chat_ui.Controller.Slug.{selected_instance_host, object_of}
use showroom_msp_chat_ui.Controller.Slug.Recording.{IsRecorded, selected_instance_host-IsRecorded}
use showroom_msp_chat_ui.Controller.Routes.{check_hostname}
use showroom_msp_chat_ui.Errors.{ok}
use showroom_msp_chat_ui.Dictionary.{lookup}
use showroom_msp_chat_ui.Text.{split, trim_space}

abbrev after_selection : Run
after_selection = (selected_instance_host kit team_api reconciler run).1

host-selected :
    selected_instance_host kit team_api reconciler run ≡ (ok "ui-.example.org", after_selection)
unfolding selected_instance_host attempt ◌>>=◌ HostnamePolicy.derived_slug HostnamePolicy.first
    HostnamePolicy.check_labels lookup split trim_space
host-selected = refl

team_host_example :
    (selection : Selection) × (select kit.sha256
        (some reconciler.hostname_policy)
        (object_of instance_of_team)
      ≡ ok selection)
    × (HostnamePolicy.host kit.validation "example.org" selection.slug ≡ ok "ui-.example.org")
    × IsRecorded kit team_api reconciler run selection after_selection
    × (check_hostname kit team_api "ui-.example.org" after_selection ≡ (ok tt, after_selection))
team_host_example =
    selected_instance_host-IsRecorded kit team_api reconciler run after_selection "ui-.example.org"
      host-selected
