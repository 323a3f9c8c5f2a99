-- ===== src/HostnamePolicy/Publishing.antt =====
-- A public host that passes the startup check serves every name that the policy can select.
use text.Mathlib.TextLemmas.{cons-append, nil-append}
use showroom_msp_chat_ui.Prelude.{
  ℕ, String, ◌≡◌, true, false, arith, suc, zero, refl, sym, ◌∙◌, [], ◌∷◌, ap, ◌⊎◌, inl, inr, some,
  List, ◌==◌, eq_iff, Bool-cases,
}
use Prim.Native.String.{[], ◌∷◌, ◌++◌}
use showroom_msp_chat_ui.HostnamePolicy.{
  Validation, is_reserved, hex_run, host, ok, check_entries, validate_public_host, Policy, Object,
  Entry, Selection, legacy_mode, select, derived_slug,
}
use showroom_msp_chat_ui.Text.{has_char, split, repeat, trim_space}
use showroom_msp_chat_ui.HostnamePolicy.Names.{host_iff, IsDigest, derived_slug-is_reserved}
use showroom_msp_chat_ui.Dictionary.{lookup, Map}
use showroom_msp_chat_ui.Errors.{>>=-eq-ok}
use showroom_msp_chat_ui.HostnamePolicy.Uniqueness.{select-Origin, legacy, digest}

-- What is documented of the DNS checks, for the names ui-<32 hex>: they look at the length and the
-- characters' classes only, so they take all of these names alike.
pub record IsDnsCheck (v : Validation) : Type 0 where
  pub label :
      (a b : String) → is_reserved a ≡ true → is_reserved b ≡ true → v.is_label a ≡ v.is_label b
  pub subdomain :
      (a b t : String)
      → is_reserved a ≡ true
      → is_reserved b ≡ true
      → v.is_subdomain (a ++ t) ≡ v.is_subdomain (b ++ t)

-- A first part without a dot is split off whole.
split-dot :
    (s t : String) → has_char b'.' s ≡ false → split b'.' (s ++ ("." ++ t)) ≡ s ∷ split b'.' t
unfolding split has_char
split-dot [] t h = rw (nil-append, cons-append, nil-append)
split-dot (c ∷ s) t h = rw (cons-append, split-dot s t (ground arith)) (ground arith)

hex_run-no_dot : (n : ℕ) (s : String) → hex_run n s ≡ true → has_char b'.' s ≡ false
unfolding hex_run has_char
hex_run-no_dot zero [] h = refl
hex_run-no_dot zero (c ∷ s) h = cc
hex_run-no_dot (suc n) [] h = refl
hex_run-no_dot (suc n) (c ∷ s) h = ground (arith, hex_run-no_dot n s)

pub reserved-no_dot : (s : String) → is_reserved s ≡ true → has_char b'.' s ≡ false
unfolding is_reserved has_char
reserved-no_dot [] h = refl
reserved-no_dot (c ∷ []) h = ground arith
reserved-no_dot (c ∷ d ∷ []) h = ground arith
reserved-no_dot (c ∷ d ∷ e ∷ s) h = ground (arith, hex_run-no_dot 32 s)

abbrev pub probe_name : String
probe_name = "ui-" ++ repeat "a" 32

probe-is_reserved : is_reserved probe_name ≡ true
unfolding is_reserved repeat
probe-is_reserved = refl

module _ (v : Validation) where
  -- Host takes all names ui-<32 hex> alike.
  host_alike :
      (base a b : String)
      → IsDnsCheck v
      → is_reserved a ≡ true
      → is_reserved b ≡ true
      → host v base a ≡ ok (a ++ ("." ++ trim_space base))
      → host v base b ≡ ok (b ++ ("." ++ trim_space base))
  host_alike base a b d ra rb h =
      let t = "." ++ trim_space base in
      let (_, label, sub, labels) = (host_iff v base a (a ++ t)).0 h in
      let parts = rw (split-dot a (trim_space base) (reserved-no_dot a ra)) at labels in
      (host_iff v base b (b ++ t)).1 (
        refl,
        sym (d.label a b ra rb) ∙ label,
        sym (d.subdomain a b t ra rb) ∙ sub,
        rw (split-dot b (trim_space base) (reserved-no_dot b rb))
            (sym (d.label a b ra rb) ∙ label, parts.1),
      )

  abbrev pub full_host : String → String → String
  full_host base slug = slug ++ ("." ++ trim_space base)

  host-full :
      (base slug : String) {h : String}
      → host v base slug ≡ ok h
      → host v base slug ≡ ok (full_host base slug)
  host-full base slug {h} e = e ∙ ap ok ((host_iff v base slug h).0 e).0

  check_entries-found :
      (base u : String) (m : Map Entry) {item : Entry}
      → check_entries v base m ≡ ok tt
      → lookup u m ≡ some item
      → item.mode ≡ legacy_mode
      → host v base item.slug ≡ ok (full_host base item.slug)
  unfolding check_entries lookup
  check_entries-found base u [] _ h _ = cc
  check_entries-found base u ((w, e) ∷ m) {item} checked h mode = elim (Bool-cases (w == u)) [
    | inl here ↦
        let same : e ≡ item = ground arith in
        let step = λ (l : e.mode ≡ legacy_mode).
          >>=-eq-ok (host v base e.slug) (λ _. check_entries v base m)
            (ground (arith, eq_iff e.mode legacy_mode)) in
        rw (← same) (host-full base e.slug (step (ap (λ k. k.mode) same ∙ mode)).1)
    | inr later ↦
        check_entries-found base u m {item = item}
          (rest_checked (Bool-cases (e.mode == legacy_mode)) checked) (ground arith) mode
  ]
    where
      rest_checked :
          (e.mode == legacy_mode ≡ true) ⊎ (e.mode == legacy_mode ≡ false)
          → check_entries v base ((w, e) ∷ m) ≡ ok tt
          → check_entries v base m ≡ ok tt
      rest_checked (inl l) c =
          (>>=-eq-ok (host v base e.slug) (λ _. check_entries v base m) (ground arith)).2
      rest_checked (inr l) c = ground arith

  -- Under a policy whose public host passed ValidatePublicHost, Host makes a full hostname of
  -- every slug that the policy selects, for every object, where the digest has 32 bytes and the
  -- DNS checks take all names ui-<32 hex> alike.
  pub validate_public_host-host :
      (base : String) (p : Policy) (sha256 : String → List ℕ) (object : Object) (s : Selection)
      → IsDnsCheck v
      → IsDigest sha256
      → validate_public_host v p base ≡ ok tt
      → select sha256 (some p) object ≡ ok s
      → host v base s.slug ≡ ok (full_host base s.slug)
  unfolding validate_public_host
  validate_public_host-host base p sha256 object s d g checked selected =
      let (probe, first, rest) =
        >>=-eq-ok (host v base probe_name) (λ _. check_entries v base p.entries) checked in
      elim (select-Origin v sha256 p object s selected) [
        | legacy item found mode same ↦
            rw same (check_entries-found base object.uid p.entries rest found mode)
        | digest same ↦ rw same (
            host_alike base probe_name (derived_slug sha256 object.uid) d probe-is_reserved
              (derived_slug-is_reserved sha256 object.uid g) (host-full base probe_name first))
      ]
