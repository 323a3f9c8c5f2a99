-- ===== src/Controller/Policies.antt =====
-- internal/controller/image_policy.go: the image that an instance may run, the status that withdraws
-- its URL, and the scale-down of a workload.
pub mod Stopping
use showroom_msp_chat_ui.Prelude.{
  String, Bool, true, false, ◌&&◌, ◌||◌, not, Option, none, some, ◌==◌, ltb, eqb, if◌then◌else◌,
  any,
}
use showroom_msp_chat_ui.Errors.{
  Result, ok, err, wrapped, is_not_found, sentinel, deployment_not_owned, message,
}
use showroom_msp_chat_ui.Controller.Setup.{Kit, owned_by_instance, chatui_key}
use showroom_msp_chat_ui.Controller.Objects.{
  supported_image, Instance, ℤ, Key, Condition, is_zero, pos,
}
use showroom_msp_chat_ui.Controller.Effects.{
  Api, Action, ◌>>=◌, ◌>>◌, fail, put, current, write, pure, attempt, ask, update_deployment,
  patch_status,
}
use showroom_msp_chat_ui.Controller.Pods.{Deployment}
use Prim.Native.String.{◌++◌}

unfoldable pub resolve_image : String → Result String
resolve_image requested =
    if requested == "" || requested == supported_image
    then ok supported_image
    else err
        (message ("spec.image must be omitted or equal the supported image " ++ supported_image))

module _ (k : Kit) (api : Api) where
  abbrev pub not_ready : Instance → String → String → Condition
  not_ready inst reason text = record {
    type = "Ready";
    status = "False";
    reason = reason;
    message = text;
    observed_generation = inst.meta.generation;
  }

  -- the instance with its URL withdrawn
  abbrev pub withdrawn : Instance → String → String → String → Instance
  withdrawn inst phase reason text = record inst {
    status = record (inst.status) {
      url = "";
      phase = phase;
      observed_generation = inst.meta.generation;
      conditions = k.set_condition inst.status.conditions (not_ready inst reason text);
    };
  }

  -- Status().Patch: the answer is decoded into `inst`, which keeps its local changes on an error.
  unfoldable pub patch : Instance → Action (Unit {0})
  patch inst = do put inst; stored ← write api.send_instance (patch_status inst); put stored

  unfoldable pub update_image_policy_status : String → String → String → Action (Unit {0})
  unfolding patch
  update_image_policy_status phase reason text = do
    inst ← current
    patch (withdrawn inst phase reason text)

  abbrev pub runs_other_image : Deployment → Bool
  runs_other_image d =
      any (λ c. c.name == "open-webui" && not (c.image == supported_image))
        d.template.spec.containers

  abbrev pub is_stopped : Option ℤ → Bool
  is_stopped none = false
  is_stopped (some n) = is_zero n

  abbrev pub not_owned_text : Key → String
  not_owned_text key = key.namespace ++ ("/" ++ key.name)

  abbrev pub stop_owned : Instance → Bool → Deployment → Action Bool
  stop_owned inst force d =
      if not (owned_by_instance d.meta inst)
      then fail (wrapped (not_owned_text (chatui_key inst)) (sentinel deployment_not_owned))
      else if not (force || runs_other_image d)
      then pure false
      else if not (is_stopped d.replicas)
      then (do write api.send (update_deployment (record d { replicas = some (pos 0) })); pure true)
      else pure
          (ltb d.status.observed_generation d.meta.generation || not (eqb d.status.replicas 0))

  abbrev pub stop_found : Instance → Bool → Result Deployment → Action Bool
  stop_found inst force (ok d) = stop_owned inst force d
  stop_found inst force (err e) = if is_not_found e then pure false else fail e

  unfoldable pub stop_unapproved_deployment : Bool → Action Bool
  unfolding owned_by_instance
  stop_unapproved_deployment force = do
    inst ← current
    found ← attempt (ask (λ log. api.get_deployment log (chatui_key inst)))
    stop_found inst force found
