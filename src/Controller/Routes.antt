-- ===== src/Controller/Routes.antt =====
-- internal/controller/hostname_policy.go, and withdrawAccess of access_resources.go: who owns and who
-- claims a route, and what a failed check does to the status.
pub mod Checking
pub mod Claims
pub mod Withdrawing
pub mod Sending
use showroom_msp_chat_ui.Prelude.{
  ◌+◌, String, Bool, true, false, ◌&&◌, not, List, [], ◌∷◌, ◌==◌, eqb, if◌then◌else◌, any,
}
use showroom_msp_chat_ui.Text.{lower, has_prefix, has_suffix, drop, count_char}
use showroom_msp_chat_ui.Controller.Setup.{owns_ingress, Kit, chatui_key}
use showroom_msp_chat_ui.Controller.Objects.{Instance, Ingress, same_key, key_of}
use showroom_msp_chat_ui.Controller.Effects.{
  Api, Action, ◌>>=◌, ◌>>◌, fail, current, pure, attempt, ask, lift, write, delete_ingress,
}
use showroom_msp_chat_ui.Errors.{
  Result, ok, sentinel, err, ingress_not_owned, is_not_found, hostname_conflict,
}
use Prim.Native.String.{◌++◌}

-- one rule of another Ingress against a host
unfoldable pub claims_host : String → String → Bool
unfolding lower has_prefix has_suffix drop count_char
claims_host rule host =
    let r = lower rule in
    let h = lower host in
    if r == h
    then true
    else if has_prefix r "*."
    then has_suffix h ("." ++ drop 2 r) && eqb (count_char b'.' h) (count_char b'.' (drop 2 r) + 1)
    else false

-- the loop over all Ingresses
unfoldable pub check_claims : Instance → String → List Ingress → Result (Unit {0})
unfolding claims_host owns_ingress
check_claims inst host [] = ok tt
check_claims inst host (ing ∷ ings) =
    let rest = check_claims inst host ings in
    if same_key (key_of ing.meta) (chatui_key inst) && owns_ingress inst ing
    then rest
    else if any (λ rule. claims_host rule.host host) ing.rules
    then err (sentinel hostname_conflict)
    else rest

module _ (k : Kit) (api : Api) where
  abbrev pub check_own : Instance → Result Ingress → Action (Unit {0})
  check_own inst (ok ing) =
      if not (owns_ingress inst ing) then fail (sentinel ingress_not_owned) else pure tt
  check_own inst (err e) = if not (is_not_found e) then fail e else pure tt

  unfoldable pub check_hostname : String → Action (Unit {0})
  unfolding check_claims
  check_hostname host = do
    inst ← current
    existing ← attempt (ask (λ log. api.get_ingress log (chatui_key inst)))
    check_own inst existing
    ingresses ← ask api.list_ingresses
    lift (check_claims inst host ingresses)

  abbrev pub deleted : Result (Unit {0}) → Action (Unit {0})
  deleted (ok _) = pure tt
  deleted (err e) = if not (is_not_found e) then fail e else pure tt

  abbrev pub withdraw_found : Instance → Result Ingress → Action (Unit {0})
  withdraw_found inst (ok ing) =
      if not (owns_ingress inst ing) then fail (sentinel ingress_not_owned) else (do
        gone ← attempt (
            write api.send
              (delete_ingress (key_of ing.meta) ing.meta.uid ing.meta.resource_version))
        deleted gone)
  withdraw_found inst (err e) = if not (is_not_found e) then fail e else pure tt

  unfoldable pub withdraw_access : Action (Unit {0})
  unfolding owns_ingress
  withdraw_access = do
    inst ← current
    found ← attempt (ask (λ log. api.get_ingress log (chatui_key inst)))
    withdraw_found inst found
