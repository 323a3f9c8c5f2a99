-- ===== src/Controller/Probing.antt =====
-- runServiceHealthCheck, defaultServiceHealthChecker, runDNSCheck and defaultDNSChecker. Building the
-- request, its time limits and the refusal to follow a redirect are part of the request, whose answer
-- is a parameter: the status code, or an error.
use showroom_msp_chat_ui.Prelude.{
  ℕ, String, ◌≡◌, refl, ◌↔◌, inl, inr, not, none, some, List, [], ◌∷◌, arith, eqb, Bool-cases,
  Option-cases, length, ap, ◌≢◌, true, false,
}
use showroom_msp_chat_ui.Controller.Setup.{Kit}
use showroom_msp_chat_ui.Controller.Effects.{Api, Log}
use showroom_msp_chat_ui.Errors.{Result, err, ok, fail_if}
use Prim.Native.String.{◌++◌}
use showroom_msp_chat_ui.Controller.Effects.Sends.{ok_injective}

module _ (k : Kit) (api : Api) where
  abbrev pub status_checked : Result ℕ → Result (Unit {0})
  status_checked (err e) = err e
  status_checked (ok status) =
      fail_if (not (eqb status 200)) ("unexpected status code " ++ k.decimal status)

  abbrev pub default_service_health_checker : Log → String → Result (Unit {0})
  default_service_health_checker log url = status_checked (api.request log url)

  unfoldable pub run_service_health_check : Log → String → Result (Unit {0})
  run_service_health_check log url = elim api.service_health_checker [
    | none ↦ default_service_health_checker log url
    | some checker ↦ checker log url
  ]

  abbrev pub addresses_checked : Result (List String) → Result (Unit {0})
  addresses_checked (err e) = err e
  addresses_checked (ok ips) = fail_if (eqb (length ips) 0) "no addresses found"

  abbrev pub default_dns_checker : Log → String → Result (Unit {0})
  default_dns_checker log host = addresses_checked (api.lookup_host log host)

  unfoldable pub run_dns_check : Log → String → Result (Unit {0})
  run_dns_check log host = elim api.dns_checker [
    | none ↦ default_dns_checker log host
    | some checker ↦ checker log host
  ]

  -- The service answered 200, or the configured checker accepts it.
  abbrev pub IsHealthy : Log → String → Type 0
  IsHealthy log url = elim api.service_health_checker [
    | none ↦ api.request log url ≡ ok 200
    | some checker ↦ checker log url ≡ ok tt
  ]

  -- The host has an address, or the configured checker accepts it.
  abbrev pub IsResolved : Log → String → Type 0
  IsResolved log host = elim api.dns_checker [
    | none ↦
        (address : String) × (more : List String) × (api.lookup_host log host ≡ ok (address ∷ more))
    | some checker ↦ checker log host ≡ ok tt
  ]

  equal : (status : ℕ) → eqb status 200 ≡ true → status ≡ 200
  equal status good = ground arith

  unequal : (status : ℕ) → eqb status 200 ≡ false → status ≢ 200
  unequal status other e = ground arith

  status_iff : (answer : Result ℕ) → (status_checked answer ≡ ok tt) ↔ (answer ≡ ok 200)
  status_iff (err e) = (λ h. cc, λ h. cc)
  status_iff (ok status) = elim (Bool-cases (eqb status 200)) [
    | inl good ↦ rw good (λ h. ap ok (equal status good), λ h. refl)
    | inr other ↦ rw other (λ h. cc, λ h. absurd (unequal status other (ok_injective h)))
  ]

  addresses_iff :
      (answer : Result (List String))
      → (addresses_checked answer ≡ ok tt)
        ↔ ((address : String) × (more : List String) × (answer ≡ ok (address ∷ more)))
  addresses_iff (err e) = (λ h. cc, λ (_, _, h). cc)
  addresses_iff (ok []) = (λ h. cc, λ (_, _, h). cc)
  addresses_iff (ok (ip ∷ ips)) = (λ h. (ip, ips, refl), λ h. ground arith)

  pub run_service_health_check_iff :
      (log : Log) (url : String) → (run_service_health_check log url ≡ ok tt) ↔ IsHealthy log url
  unfolding run_service_health_check
  run_service_health_check_iff log url = elim (Option-cases api.service_health_checker) [
    | inl standard ↦ rw standard (status_iff (api.request log url))
    | inr (checker, configured) ↦ rw configured (λ h. h, λ h. h)
  ]

  pub run_dns_check_iff :
      (log : Log) (host : String) → (run_dns_check log host ≡ ok tt) ↔ IsResolved log host
  unfolding run_dns_check
  run_dns_check_iff log host = elim (Option-cases api.dns_checker) [
    | inl standard ↦ rw standard (addresses_iff (api.lookup_host log host))
    | inr (checker, configured) ↦ rw configured (λ h. h, λ h. h)
  ]
