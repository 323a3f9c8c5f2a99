-- ===== src/Controller/Routes/Checking.antt =====
-- When a hostname is free for an instance.
use showroom_msp_chat_ui.Prelude.{
  String, ◌≡◌, refl, ◌↔◌, ◌⊎◌, true, false, List, [], ◌∷◌, arith, any, All, inl, inr, Bool, ◌&&◌,
  eq_iff, if◌then◌else◌, Bool-cases, sym, ap,
}
use showroom_msp_chat_ui.Controller.Effects.{◌>>=◌, Api, Run, attempt, Action, continue, ask, lift}
use showroom_msp_chat_ui.Controller.Setup.{Kit, chatui_key, owns_ingress}
use showroom_msp_chat_ui.Errors.{
  Result, ok, err, is_not_found, sentinel, hostname_conflict, Result-cases,
}
use showroom_msp_chat_ui.Controller.Objects.{Instance, Rule, Key, Ingress, same_key, key_of}
use showroom_msp_chat_ui.Controller.Routes.{check_claims, check_hostname, claims_host, check_own}
use mathlib.Core.Path.{subst}
use showroom_msp_chat_ui.Controller.Effects.Sends.{err-ne-ok, ok_injective}

-- An Ingress leaves a host to an instance: it is the instance's own, or no rule of it claims the host.
abbrev pub IsHarmless : Instance → String → Ingress → Type 0
IsHarmless inst host ing =
    ((key_of ing.meta ≡ chatui_key inst) × (owns_ingress inst ing ≡ true))
    ⊎ All (λ rule. claims_host rule.host host ≡ false) ing.rules

no_claim_iff :
    (host : String) (rules : List Rule)
    → (any (λ rule. claims_host rule.host host) rules ≡ false)
      ↔ All (λ rule. claims_host rule.host host ≡ false) rules
no_claim_iff host [] = (λ _. tt, λ _. refl)
no_claim_iff host (rule ∷ rules) = ground (arith, no_claim_iff host rules)

both_true : (a b : Bool) → a && b ≡ true → (a ≡ true) × (b ≡ true)
both_true a b h = ground arith

same_key_iff : (a b : Key) → (same_key a b ≡ true) ↔ (a ≡ b)
same_key_iff a b = ground (arith, eq_iff a.namespace b.namespace, eq_iff a.name b.name)

-- one round of the loop
round_iff :
    (own claimed : Bool) (rest : Result (Unit {0}))
    → ((if own then rest else if claimed then err (sentinel hostname_conflict) else rest) ≡ ok tt)
      ↔ (((own ≡ true) ⊎ (claimed ≡ false)) × (rest ≡ ok tt))
round_iff own claimed rest = ground arith

claims-IsHarmless_iff :
    (inst : Instance) (host : String) (ing : Ingress)
    → (((same_key (key_of ing.meta) (chatui_key inst) && owns_ingress inst ing) ≡ true)
        ⊎ (any (λ rule. claims_host rule.host host) ing.rules ≡ false))
      ↔ IsHarmless inst host ing
claims-IsHarmless_iff inst host ing =
    let (f, b) = same_key_iff (key_of ing.meta) (chatui_key inst) in
    let (p, q) = no_claim_iff host ing.rules in
    (
      λ h. elim h [
        | inl own ↦ let (same, owned) = both_true _ _ own in inl (f same, owned)
        | inr free ↦ inr (p free)
      ],
      λ h. elim h [ inl (same, owned) ↦ inl (rw (b same, owned) refl) | inr free ↦ inr (q free) ],
    )

check_claims_iff :
    (inst : Instance) (host : String) (ings : List Ingress)
    → (check_claims inst host ings ≡ ok tt) ↔ All (IsHarmless inst host) ings
unfolding check_claims
check_claims_iff inst host [] = (λ _. tt, λ _. refl)
check_claims_iff inst host (ing ∷ ings) =
    let (f, b) = check_claims_iff inst host ings in
    let (p, q) = claims-IsHarmless_iff inst host ing in
    let (r, t) =
      round_iff (same_key (key_of ing.meta) (chatui_key inst) && owns_ingress inst ing)
        (any (λ rule. claims_host rule.host host) ing.rules) (check_claims inst host ings) in
    (λ h. let (free, rest) = r h in (p free, f rest), λ (free, rest). t (q free, b rest))

-- What the API server says of the instance's own Ingress: it is absent or the instance's.
abbrev pub IsOwnOrAbsent : Instance → Result Ingress → Type 0
IsOwnOrAbsent inst (ok ing) = owns_ingress inst ing ≡ true
IsOwnOrAbsent inst (err e) = is_not_found e ≡ true

module _ (k : Kit) (api : Api) where
  check_own_iff :
      (inst : Instance) (r : Result Ingress) (s : Run)
      → ((check_own k api inst r s).0 ≡ ok tt) ↔ IsOwnOrAbsent inst r
  check_own_iff inst (ok ing) s = ground arith
  check_own_iff inst (err e) s = ground arith

  check_own-same :
      (inst : Instance) (r : Result Ingress) (s : Run) → (check_own k api inst r s).1 ≡ s
  check_own-same inst (ok ing) s = elim (Bool-cases (owns_ingress inst ing)) [
    | inl h ↦ rw h refl
    | inr h ↦ rw h refl
  ]
  check_own-same inst (err e) s = elim (Bool-cases (is_not_found e)) [
    | inl h ↦ rw h refl
    | inr h ↦ rw h refl
  ]

  -- the part of checkHostname behind the check of the instance's own Ingress
  abbrev list_and_check : Instance → String → Unit {0} → Action (Unit {0})
  list_and_check inst host _ = ask api.list_ingresses >>= λ ings. lift (check_claims inst host ings)

  listed_iff :
      (inst : Instance) (host : String) (s : Run)
      → (((list_and_check inst host tt s).0 ≡ ok tt) ↔ (
          (ings : List Ingress) × (api.list_ingresses s.log ≡ ok ings)
          × All (IsHarmless inst host) ings))
        × ((list_and_check inst host tt s).1 ≡ s)
  unfolding ◌>>=◌
  listed_iff inst host s = elim (Result-cases (api.list_ingresses s.log)) [
    | inl (ings, e) ↦
        let (f, b) = check_claims_iff inst host ings in
        rw e (
          (
            λ h. (ings, refl, f h),
            λ (others, same, h). b (subst (All (IsHarmless inst host)) (sym (ok_injective same)) h),
          ),
          refl,
        )
    | inr (e, h) ↦ rw h ((λ w. cc, λ (ings, w, _). absurd (err-ne-ok w)), refl)
  ]

  own_then_iff :
      (inst : Instance) (host : String) (own : Result (Unit {0})) (s : Run)
      → (((continue own (list_and_check inst host) s).0 ≡ ok tt)
          ↔ ((own ≡ ok tt) × ((list_and_check inst host tt s).0 ≡ ok tt)))
        × ((continue own (list_and_check inst host) s).1 ≡ s)
  own_then_iff inst host (ok tt) s = ((λ h. (refl, h), λ (_, h). h), (listed_iff inst host s).1)
  own_then_iff inst host (err e) s =
      ((λ h. absurd (err-ne-ok h), λ (h, _). absurd (err-ne-ok h)), refl)

  check_hostname-own :
      (host : String) (s : Run)
      → check_hostname k api host s
        ≡ continue
            (check_own k api s.inst (api.get_ingress s.log (chatui_key s.inst)) s).0
            (list_and_check s.inst host)
            s
  unfolding check_hostname attempt ◌>>=◌
  check_hostname-own host s =
      let e = check_own-same s.inst (api.get_ingress s.log (chatui_key s.inst)) s in
      ap
        (λ t.
          continue (check_own k api s.inst (api.get_ingress s.log (chatui_key s.inst)) s).0
            (list_and_check s.inst host) t)
        e

  -- A hostname passes the check exactly when the Ingress with the instance's name is absent or the
  -- instance's own, and all Ingresses of the cluster can be listed, of which each is the instance's
  -- own or has no rule that claims the host; the check changes nothing.
  pub check_hostname_iff :
      (host : String) (s : Run)
      → (((check_hostname k api host s).0 ≡ ok tt) ↔ (
          IsOwnOrAbsent s.inst (api.get_ingress s.log (chatui_key s.inst))
          × ((ings : List Ingress) × (api.list_ingresses s.log ≡ ok ings)
              × All (IsHarmless s.inst host) ings)))
        × ((check_hostname k api host s).1 ≡ s)
  check_hostname_iff host s =
      let found = api.get_ingress s.log (chatui_key s.inst) in
      let (f, b) = check_own_iff s.inst found s in
      let ((p, q), same) = own_then_iff s.inst host (check_own k api s.inst found s).0 s in
      let ((l, m), _) = listed_iff s.inst host s in
      rw (check_hostname-own host s)
        ((λ h. let (own, rest) = p h in (f own, l rest), λ (own, rest). q (b own, m rest)), same)
