-- ===== src/Controller/History.antt =====
-- access_secret_history.go: which pinned bundle is retired to make room for a new one.
pub mod Candidates
pub mod Retiring
mod Examples
use showroom_msp_chat_ui.Prelude.{
  String, Bool, ◌||◌, not, none, some, List, [], ◌∷◌, ◌==◌, ltb, leb, eqb, if◌then◌else◌, length,
}
use mathlib.Core.List.{◌++◌, flat_map}
use Prim.Native.String.{compare}
use text.Mathlib.Text.{is_lt}
use showroom_msp_chat_ui.Controller.Pods.{EnvVar, Container, Volume, PodSpec}
use showroom_msp_chat_ui.Controller.Objects.{Secret, Instance, key_of}
use showroom_msp_chat_ui.Controller.Setup.{Kit, owned_by_instance}
use showroom_msp_chat_ui.Controller.Effects.{
  Api, Action, ◌>>=◌, ◌>>◌, fail, lift, pure, attempt, ask, current, write, delete_secret,
}
use showroom_msp_chat_ui.Errors.{Result, ok, message, fail_if, err, is_not_found}
use showroom_msp_chat_ui.Controller.Sessions.{
  persist_access_secret_pins, is_true, session_secret_name, max_access_bundles, new_meta,
}
use showroom_msp_chat_ui.Dictionary.{Map, remove}
use showroom_msp_chat_ui.Text.{has_prefix}
use showroom_msp_chat_ui.HostnamePolicy.{mem}
use showroom_msp_chat_ui.Controller.Routes.{deleted}

abbrev pub secret_of_env : EnvVar → List String
secret_of_env e = elim e.from_secret [ none ↦ [] | some s ↦ s.secret ∷ [] ]

abbrev pub secrets_of_container : Container → List String
secrets_of_container c = flat_map secret_of_env c.env ++ c.env_from

abbrev pub secrets_of_volume : Volume → List String
secrets_of_volume v = (elim v.secret [ none ↦ [] | some s ↦ s.secret_name ∷ [] ]) ++ v.projected

-- collectSecretReferences, as the list of the names
unfoldable pub collect_secret_references : PodSpec → List String
collect_secret_references spec =
    flat_map secrets_of_volume spec.volumes
    ++ (spec.image_pull_secrets
        ++ (flat_map secrets_of_container spec.init_containers
            ++ (flat_map secrets_of_container spec.containers
                ++ flat_map secrets_of_container spec.ephemeral_containers)))

-- the order of the candidates: by creation, then by name
abbrev pub is_older : Secret → Secret → Bool
is_older a b =
    if eqb a.meta.created b.meta.created
    then is_lt (compare a.meta.name b.meta.name)
    else ltb a.meta.created b.meta.created

-- the first candidate after sorting
unfoldable pub oldest : Secret → List Secret → Secret
oldest s [] = s
oldest s (t ∷ ts) = oldest (if is_older t s then t else s) ts

module _ (k : Kit) (api : Api) where
  abbrev pub history_found : Instance → String → String → Result Secret → Action Secret
  history_found inst name uid (ok secret) =
      if not (owned_by_instance secret.meta inst)
        || not (is_true secret.immutable)
        || not (secret.meta.uid == uid)
      then fail (message "access Secret history ownership or identity mismatch")
      else pure secret
  history_found inst name uid (err e) =
      if is_not_found e
      then pure (record { meta = new_meta k api inst name; immutable = none; contents = [] })
      else fail e

  abbrev pub history_secret : Instance → String → String → Action Secret
  history_secret inst name uid = do
    lift (
        fail_if (not (has_prefix name "chatui-access-") || uid == "")
          "invalid access Secret history")
    found ←
        attempt (
          ask (λ log. api.get_secret log (record { namespace = inst.meta.namespace; name = name })))
    history_found inst name uid found

  -- the loop over the pins
  unfoldable pub collect_candidates : Instance → List String → Map String → Action (List Secret)
  collect_candidates inst referenced [] = pure []
  collect_candidates inst referenced ((name, uid) ∷ pins) =
      let rest = collect_candidates inst referenced pins in
      if name == session_secret_name k api inst then rest else (do
        secret ← history_secret inst name uid
        others ← rest
        pure (if not (mem name referenced) then secret ∷ others else others))

  abbrev pub gone : Result Secret → Action (Unit {0})
  gone (ok _) = fail (message "waiting for retired access Secret deletion")
  gone (err e) = if not (is_not_found e) then fail e else pure tt

  abbrev pub delete_retired : Secret → Action (Unit {0})
  delete_retired retired =
      if not (retired.meta.uid == "")
      then (do
        answer ← attempt (
            write api.send
              (delete_secret (key_of retired.meta) retired.meta.uid retired.meta.resource_version))
        deleted k api answer
        remaining ← attempt (ask (λ log. api.get_secret log (key_of retired.meta)))
        gone remaining)
      else pure tt

  abbrev pub retire : List Secret → Action (Unit {0})
  retire [] = fail (message "access Secret history is still in use; cannot retire a bundle")
  retire (s ∷ ss) = do
    inst ← current
    delete_retired (oldest s ss)
    persist_access_secret_pins k api (remove (oldest s ss).meta.name inst.status.access_secret_uids)

  abbrev pub retire_one : Instance → Action (Unit {0})
  retire_one inst = do
    deployments ← ask (λ log. api.list_deployments log inst.meta.namespace)
    pods ← ask (λ log. api.list_pods log inst.meta.namespace)
    let referenced =
        flat_map (λ d. collect_secret_references d.template.spec) deployments
        ++ flat_map collect_secret_references pods
    candidates ← collect_candidates inst referenced inst.status.access_secret_uids
    retire candidates

  unfoldable pub make_access_secret_room : Action (Unit {0})
  unfolding collect_candidates collect_secret_references oldest persist_access_secret_pins remove
  make_access_secret_room = do
    inst ← current
    if leb (length inst.status.access_secret_uids) max_access_bundles
        then pure tt
        else retire_one inst
