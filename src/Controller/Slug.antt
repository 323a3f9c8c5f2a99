-- ===== src/Controller/Slug.antt =====
-- ensureSlug, instanceHost and selectedInstanceHost: the route of an instance, selected and checked.
pub mod Recording
mod Examples
use showroom_msp_chat_ui.HostnamePolicy.{select, Object, Selection, host}
use showroom_msp_chat_ui.Prelude.{String, Bool, ◌&&◌, not, some, ◌==◌, if◌then◌else◌}
use showroom_msp_chat_ui.Controller.Objects.{Instance, Status, key_of}
use showroom_msp_chat_ui.Controller.Setup.{Kit, Reconciler, phase_provisioning}
use showroom_msp_chat_ui.Controller.Effects.{
  Api, Action, ◌>>=◌, ◌>>◌, current, lift, ask, pure, fail,
}
use showroom_msp_chat_ui.Controller.Policies.{not_ready, patch}
use showroom_msp_chat_ui.Controller.Routes.{check_hostname}
use showroom_msp_chat_ui.Errors.{message}

abbrev pub object_of : Instance → Object
object_of inst = record {
  uid = inst.meta.uid;
  namespace = inst.meta.namespace;
  name = inst.meta.name;
  created = inst.meta.created;
}

abbrev pub has_selection : Status → Selection → Bool
has_selection status selection =
    status.slug == selection.slug && status.slug_source == selection.source

module _ (k : Kit) (api : Api) (r : Reconciler) where
  -- the instance with a new slug and no URL
  abbrev pub with_slug : Instance → Selection → Instance
  with_slug inst selection = record inst {
    status = record (inst.status) {
      slug = selection.slug;
      slug_source = selection.source;
      url = "";
      phase = phase_provisioning;
      observed_generation = inst.meta.generation;
      conditions =
          k.set_condition inst.status.conditions
            (not_ready k api inst "HostnamePending" "Validating the operator-selected hostname");
    };
  }

  abbrev pub persist_slug : Instance → Selection → Action String
  persist_slug inst selection = do
    patch k api (with_slug inst selection)
    stored ← current
    persisted ← ask (λ log. api.get_instance log (key_of stored.meta))
    if not (has_selection persisted.status selection)
        then fail (
            message
              "ChatUIInstance schema must persist status.slug and status.slugSource before reconciliation")
        else pure selection.slug

  unfoldable pub ensure_slug : Action String
  unfolding select patch
  ensure_slug = do
    inst ← current
    selection ← lift (select k.sha256 (some r.hostname_policy) (object_of inst))
    if not (has_selection inst.status selection)
        then persist_slug inst selection
        else pure selection.slug

  unfoldable pub selected_instance_host : Action String
  unfolding ensure_slug host check_hostname
  selected_instance_host = do
    slug ← ensure_slug
    full ← lift (host k.validation r.public_host slug)
    check_hostname k api full
    pure full
