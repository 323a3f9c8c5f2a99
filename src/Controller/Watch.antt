-- ===== src/Controller/Watch.antt =====
-- SetupWithManager and findChatUIInstancesForSecret of chatuiinstance_controller.go: what the
-- controller needs to start, and which instances a changed Secret concerns.
use showroom_msp_chat_ui.HostnamePolicy
use showroom_msp_chat_ui.AccessPolicy
use showroom_msp_chat_ui.Prelude.{String, Bool, Option, List, [], ◌∷◌, ◌==◌, if◌then◌else◌}
use showroom_msp_chat_ui.HostnamePolicy.{Validation, validate_public_host}
use showroom_msp_chat_ui.Errors.{Result, ok, err, ◌>>=◌, ◌>>◌, given}
use showroom_msp_chat_ui.Controller.Objects.{Instance, Secret, Key, key_of}
use showroom_msp_chat_ui.Dictionary.{Map}
use showroom_msp_chat_ui.Controller.Setup.{Reconciler}
use showroom_msp_chat_ui.Text.{trim_space}

-- The reconciler as main.go makes it, where a policy may be missing, and a checked one. What the
-- builder registers is the controller library's.
pub record Proposal : Type 0 where
  pub hostname_policy : Option HostnamePolicy.Policy
  pub access_policy : Option AccessPolicy.Policy
  pub public_host : String
  pub public_scheme : String
  pub extra_ingress_annotations : Map String
  pub tls_secret_name : String

unfoldable pub setup_with_manager : Validation → Proposal → Result Reconciler
unfolding validate_public_host
setup_with_manager v p = do
  access ← given p.access_policy "access policy is required"
  hostnames ← given p.hostname_policy "hostname policy is required"
  validate_public_host v hostnames p.public_host
  ok (record {
    hostname_policy = hostnames;
    access_policy = access;
    public_host = p.public_host;
    public_scheme = p.public_scheme;
    extra_ingress_annotations = p.extra_ingress_annotations;
    tls_secret_name = p.tls_secret_name;
  })

abbrev pub references : Secret → Instance → Bool
references secret inst = trim_space inst.spec.credentials_secret == secret.meta.name

-- the loop over the instances
unfoldable pub requests_for : Secret → List Instance → List Key
unfolding trim_space
requests_for secret [] = []
requests_for secret (inst ∷ insts) =
    let rest = requests_for secret insts in
    if references secret inst then key_of inst.meta ∷ rest else rest

-- `listed` is what the listing of the instances in the Secret's namespace gave.
unfoldable pub find_chatui_instances_for_secret : Secret → Result (List Instance) → List Key
unfolding requests_for
find_chatui_instances_for_secret secret (err e) = []
find_chatui_instances_for_secret secret (ok insts) = requests_for secret insts
