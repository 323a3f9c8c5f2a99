-- ===== src/Operator.antt =====
-- cmd/main.go: what the flags and the environment say, the two policies, and the steps up to the
-- running manager. Logging and telemetry, of which a failure is only logged, are left out, and so
-- are the flags that the manager alone reads.
pub mod Labels
pub mod Starting
mod Examples
use showroom_msp_chat_ui.HostnamePolicy
use showroom_msp_chat_ui.AccessPolicy
use showroom_msp_chat_ui.Prelude.{
  String, ◌&&◌, not, Option, none, some, [], ◌∷◌, ◌==◌, ltb, if◌then◌else◌, length,
}
use showroom_msp_chat_ui.Dictionary.{insert, Map}
use showroom_msp_chat_ui.HostnamePolicy.{Validation, Json}
use showroom_msp_chat_ui.AccessPolicy.{Decoder, Url}
use showroom_msp_chat_ui.Errors.{Result, Error, ok, err, message, ◌>>=◌, ◌>>◌}
use showroom_msp_chat_ui.Controller.Setup.{Reconciler}
use showroom_msp_chat_ui.Controller.Watch.{Proposal, setup_with_manager}

-- a value of a JSON object: a text, or any other
pub data Value (V : Type 0) : Type 0 where
  text : String → Value V
  other : V → Value V

-- encoding/json: an object's fields, where the whole text is an object or null, and the text of a
-- value
pub record Codec (V : Type 0) : Type 0 where
  pub unmarshal : String → Option (Map (Value V))
  pub marshal : V → Option String

module _ {V : Type 0} (codec : Codec V) where
  abbrev pub with_field : String → Value V → Map String → Map String
  with_field key (text t) out = insert key t out
  with_field key (other v) out = elim (codec.marshal v) [ none ↦ out | some t ↦ insert key t out ]

  -- the loop over the fields
  unfoldable pub convert : Map (Value V) → Map String → Map String
  unfolding insert
  convert [] out = out
  convert ((key, v) ∷ fields) out = convert fields (with_field key v out)

  -- nil and the empty map are one map here.
  unfoldable pub parse_json_map : String → Map String
  unfolding convert
  parse_json_map s = elim (codec.unmarshal s) [ none ↦ [] | some raw ↦ convert raw [] ]

-- the flags that main gives to the reconciler, and the variables that it reads; os.Getenv of a
-- variable that is not set is empty
pub record Flags : Type 0 where
  pub public_scheme : String
  pub ingress_extra_annotations : String
  pub tls_secret_name : String
  pub hostname_policy_file : String
  pub access_policy_file : String

pub record Environment : Type 0 where
  pub public_host : String
  pub public_scheme : String
  pub ingress_extra_annotations : String
  pub tls_secret_name : String

unfoldable pub public_host : Environment → String
public_host env = if not (env.public_host == "") then env.public_host else "localhost"

unfoldable pub public_scheme : Flags → Environment → String
public_scheme flags env =
    if not (flags.public_scheme == "")
    then flags.public_scheme
    else if not (env.public_scheme == "")
    then env.public_scheme
    else "http"

unfoldable pub tls_secret_name : Flags → Environment → String
tls_secret_name flags env =
    if not (flags.tls_secret_name == "") then flags.tls_secret_name else env.tls_secret_name

module _ {V : Type 0} (codec : Codec V) where
  -- the annotations of a text, where it has some
  abbrev pub annotations_of : String → Option (Map String)
  annotations_of s =
      if not (s == "") && ltb 0 (length (parse_json_map codec s))
      then some (parse_json_map codec s)
      else none

  unfoldable pub extra_annotations : Flags → Environment → Map String
  unfolding parse_json_map
  extra_annotations flags env = elim (annotations_of flags.ingress_extra_annotations) [
    | some m ↦ m
    | none ↦ elim (annotations_of env.ingress_extra_annotations) [ some m ↦ m | none ↦ [] ]
  ]

-- os.Open and io.ReadAll: a file that cannot be opened, or what reading it gives
abbrev pub Files : Type 0
Files = String → Result (Result String)

unfoldable pub load_hostname_policy :
    Validation → Json → Files → String → Result HostnamePolicy.Policy
load_hostname_policy v json files path =
    if path == ""
    then err (message "--hostname-policy-file is required")
    else (files path >>= λ read. HostnamePolicy.parse v json read)

abbrev pub opened : Result (Result String) → Result (Result String)
opened (ok read) = ok read
opened (err _) = err (message "access policy cannot be opened")

unfoldable pub load_access_policy :
    Validation
    → (String → Option Url)
    → Decoder AccessPolicy.Policy
    → Files
    → String
    → Result AccessPolicy.Policy
load_access_policy v parse_url decoder files path =
    if path == ""
    then err (message "--access-policy-file is required")
    else (opened (files path) >>= λ read. AccessPolicy.parse v parse_url decoder read)

-- the manager: its construction, the registration of the controller and of the two checks, and its
-- run up to the end
pub record Manager : Type 0 where
  pub make : Result (Unit {0})
  pub register : Result (Unit {0})
  pub add_healthz : Result (Unit {0})
  pub add_readyz : Result (Unit {0})
  pub run : Result (Unit {0})

-- How the process ends: os.Exit(1) before the manager starts or after it failed, or a return.
pub data Exit : Type 0 where
  refused : Error → Exit
  broken : Reconciler → Error → Exit
  stopped : Reconciler → Exit

-- Everything that main is given.
pub record Host (V : Type 0) : Type 0 where
  pub validation : Validation
  pub json : Json
  pub parse_url : String → Option Url
  pub decoder : Decoder AccessPolicy.Policy
  pub codec : Codec V
  pub files : Files
  pub flags : Flags
  pub env : Environment
  pub manager : Manager

module _ {V : Type 0} (h : Host V) where
  unfoldable pub proposal : HostnamePolicy.Policy → AccessPolicy.Policy → Proposal
  unfolding public_host public_scheme tls_secret_name extra_annotations
  proposal hostnames access = record {
    hostname_policy = some hostnames;
    access_policy = some access;
    public_host = public_host h.env;
    public_scheme = public_scheme h.flags h.env;
    extra_ingress_annotations = extra_annotations h.codec h.flags h.env;
    tls_secret_name = tls_secret_name h.flags h.env;
  }

  -- the steps before the manager starts, of which each one's error ends the process
  unfoldable pub prepare : Result Reconciler
  prepare = do
    hostnames ← load_hostname_policy h.validation h.json h.files h.flags.hostname_policy_file
    access ←
        load_access_policy h.validation h.parse_url h.decoder h.files h.flags.access_policy_file
    h.manager.make
    r ← setup_with_manager h.validation (proposal hostnames access)
    h.manager.register
    h.manager.add_healthz
    h.manager.add_readyz
    ok r

  abbrev pub start : Result Reconciler → Exit
  start (err e) = refused e
  start (ok r) = elim h.manager.run [ ok _ ↦ stopped r | err e ↦ broken r e ]

  unfoldable pub main : Exit
  unfolding prepare
  main = start prepare
