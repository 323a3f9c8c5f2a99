-- ===== src/Controller/Sessions.antt =====
-- The session Secret and the pins of access_resources.go: uidHash, sessionSecretName, sessionSecret,
-- pinAccessSecret and persistAccessSecretPins.
pub mod Trusting
pub mod Pinning
pub mod Creating
use showroom_msp_chat_ui.Prelude.{
  ℕ, ◌+◌, String, Bool, true, false, ◌&&◌, not, Option, none, some, [], ◌∷◌, ◌==◌, ltb, eqb,
  if◌then◌else◌, length, all,
}
use Prim.Native.String.{len, ◌++◌}
use showroom_msp_chat_ui.Dictionary.{lookup, Map, insert, value_of}
use showroom_msp_chat_ui.Controller.Setup.{Kit, owned_by_instance}
use showroom_msp_chat_ui.Controller.Effects.{
  Api, Action, ◌>>=◌, ◌>>◌, current, lift, ask, write, fail, attempt, patch_status, create_secret,
  pure, put,
}
use showroom_msp_chat_ui.HostnamePolicy.{hex, first}
use showroom_msp_chat_ui.Controller.Objects.{Instance, Secret, Meta, key_of}
use showroom_msp_chat_ui.Errors.{Result, ok, fail_if, message, err, is_not_found, given}

-- maxAccessBundles
abbrev pub max_access_bundles : ℕ
max_access_bundles = 3

-- reflect.DeepEqual of two maps
unfoldable pub same_map : Map String → Map String → Bool
unfolding lookup
same_map a b =
    eqb (length a) (length b)
    && all (λ f. elim (lookup f.0 b) [ none ↦ false | some v ↦ v == f.1 ]) a

abbrev pub is_true : Option Bool → Bool
is_true none = false
is_true (some b) = b

module _ (k : Kit) (api : Api) where
  unfoldable pub uid_hash : String → String
  uid_hash value = hex (first 16 (k.sha256 value))

  unfoldable pub session_secret_name : Instance → String
  unfolding uid_hash
  session_secret_name inst = "chatui-session-" ++ uid_hash inst.meta.uid

  abbrev pub pin_of : Instance → String → String
  pin_of inst name = value_of name inst.status.access_secret_uids

  unfoldable pub persist_access_secret_pins : Map String → Action (Unit {0})
  unfolding same_map
  persist_access_secret_pins pins = do
    inst ← current
    write api.send_instance
        (patch_status (record inst { status = record (inst.status) { access_secret_uids = pins } }))
    persisted ← ask (λ log. api.get_instance log (key_of inst.meta))
    if not (same_map persisted.status.access_secret_uids pins)
        then fail (message "ChatUIInstance schema must persist access Secret UID pins")
        else put persisted

  unfoldable pub pin_access_secret : Secret → Action (Unit {0})
  unfolding persist_access_secret_pins insert
  pin_access_secret secret = do
    inst ← current
    lift (fail_if (secret.meta.uid == "") "API server did not assign an access Secret UID")
    let pins = insert secret.meta.name secret.meta.uid inst.status.access_secret_uids
    lift (fail_if (ltb (max_access_bundles + 1) (length pins)) "access Secret history is full")
    persist_access_secret_pins pins

  -- owned, immutable, alive and pinned
  abbrev pub is_trusted : Instance → Secret → Bool
  is_trusted inst secret =
      owned_by_instance secret.meta inst
      && is_true secret.immutable
      && not secret.meta.deleting
      && not (secret.meta.uid == "")
      && pin_of inst secret.meta.name == secret.meta.uid

  abbrev pub is_key : Option String → Bool
  is_key none = false
  is_key (some bytes) = eqb (len bytes) 32

  abbrev pub has_key : Secret → String → Bool
  has_key secret name = is_key (k.base64_decode (value_of name secret.contents))

  -- metadata of a new object of the instance, before the server fills it in
  abbrev pub new_meta : Instance → String → Meta
  new_meta inst name = record {
    name = name;
    namespace = inst.meta.namespace;
    uid = "";
    resource_version = "";
    generation = 0;
    created = 0;
    deleting = false;
    finalizers = [];
    labels = [];
    annotations = [];
    controller = none;
  }

  abbrev pub create_pinned_secret : Instance → String → Map String → Action Secret
  create_pinned_secret inst name contents = do
    meta ← lift (k.set_controller inst (new_meta inst name))
    secret ←
        write api.send_secret
          (create_secret (record { meta = meta; immutable = some true; contents = contents }))
    pin_access_secret secret
    pure secret

  abbrev pub create_session : Instance → String → Action Secret
  create_session inst name = do
    cookie ← ask (λ log. given (api.random log "cookie-secret") "session entropy unavailable")
    webui ← ask (λ log. given (api.random log "webui-secret") "session entropy unavailable")
    create_pinned_secret inst name
        (("cookie-secret", k.base64_encode cookie) ∷ ("webui-secret", k.base64_encode webui) ∷ [])

  abbrev pub session_found : Instance → String → Result Secret → Action Secret
  session_found inst name (ok secret) =
      if not (is_trusted inst secret)
      then fail (message "session Secret ownership or immutability mismatch")
      else if not (has_key secret "cookie-secret" && has_key secret "webui-secret")
      then fail (message "invalid session key material")
      else pure secret
  session_found inst name (err e) =
      if not (is_not_found e)
      then fail e
      else if not (pin_of inst name == "")
      then fail (message "pinned session Secret is missing; operator recovery required")
      else create_session inst name

  unfoldable pub session_secret : Action Secret
  unfolding session_secret_name pin_access_secret owned_by_instance
  session_secret = do
    inst ← current
    let name = session_secret_name inst
    found ←
        attempt (
          ask (λ log. api.get_secret log (record { namespace = inst.meta.namespace; name = name })))
    session_found inst name found
