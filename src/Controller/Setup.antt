-- ===== src/Controller/Setup.antt =====
-- The reconciler's configuration, and the pure functions of third-party packages that it calls.
use showroom_msp_chat_ui.HostnamePolicy
use showroom_msp_chat_ui.AccessPolicy
use showroom_msp_chat_ui.Prelude.{ℕ, String, Bool, false, ◌&&◌, not, Option, none, some, List, ◌==◌}
use showroom_msp_chat_ui.HostnamePolicy.{Validation}
use showroom_msp_chat_ui.Dictionary.{Map}
use showroom_msp_chat_ui.Controller.Objects.{
  Instance, Meta, Condition, Key, Owner, Ingress, group_version,
}
use showroom_msp_chat_ui.Errors.{Result, Error}
use Prim.Native.String.{◌++◌}

-- What encoding/json is given.
mutual
  pub data Json : Type 0 where
    text : String → Json
    flag : Bool → Json
    list : Items → Json
    object : Fields → Json

  pub data Items : Type 0 where
    nil : Items
    cons : Json → Items → Items

  pub data Fields : Type 0 where
    end : Fields
    field : String → Json → Fields → Fields

-- Pure functions that are not the operator's own: the DNS checks, SHA-256, meta.SetStatusCondition,
-- meta.IsStatusConditionTrue, ctrl.SetControllerReference, base64 and JSON;
-- the embedded guard; and fmt's %q, %d and %v.
pub record Kit : Type 0 where
  pub validation : Validation
  pub sha256 : String → List ℕ
  pub set_condition : List Condition → Condition → List Condition
  pub is_condition_true : List Condition → String → Bool
  pub set_controller : Instance → Meta → Result Meta
  pub base64_decode : String → Option String
  pub base64_encode : String → String
  pub base64_url_encode : String → String
  pub marshal : Json → Result String
  pub marshal_secret : Map String → Result String
  pub guard_source : String
  pub quote : String → String
  pub decimal : ℕ → String
  pub error_text : Error → String

-- ChatUIInstanceReconciler; SetupWithManager refuses to start without the two policies.
pub record Reconciler : Type 0 where
  pub hostname_policy : HostnamePolicy.Policy
  pub access_policy : AccessPolicy.Policy
  pub public_host : String
  pub public_scheme : String
  pub extra_ingress_annotations : Map String
  pub tls_secret_name : String

abbrev pub phase_error : String
phase_error = "Error"

abbrev pub phase_provisioning : String
phase_provisioning = "Provisioning"

-- seconds
abbrev pub hostname_recheck_after : ℕ
hostname_recheck_after = 30

abbrev pub provisioning_requeue_after : ℕ
provisioning_requeue_after = 5

-- inst.Name + "-chatui", in the instance's namespace
abbrev pub chatui_name : Instance → String
chatui_name inst = inst.meta.name ++ "-chatui"

abbrev pub chatui_key : Instance → Key
chatui_key inst = record { namespace = inst.meta.namespace; name = chatui_name inst }

abbrev pub is_owner : Instance → Option Owner → Bool
is_owner inst none = false
is_owner inst (some owner) =
    owner.uid == inst.meta.uid
    && owner.name == inst.meta.name
    && owner.api_version == group_version
    && owner.kind == "ChatUIInstance"

unfoldable pub owned_by_instance : Meta → Instance → Bool
owned_by_instance m inst =
    not (inst.meta.uid == "") && m.namespace == inst.meta.namespace && is_owner inst m.controller

unfoldable pub owns_ingress : Instance → Ingress → Bool
owns_ingress inst ing =
    not (inst.meta.uid == "")
    && ing.meta.namespace == inst.meta.namespace
    && is_owner inst ing.meta.controller
