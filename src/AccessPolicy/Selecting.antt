-- ===== src/AccessPolicy/Selecting.antt =====
-- What Select answers under a parsed policy, and that a source's path names one object.
use text.Mathlib.TextLemmas.{append_assoc, append_cancel_left}
use showroom_msp_chat_ui.Prelude.{
  String, ◌≡◌, sym, ap, ◌∙◌, ◌≢◌, ◌↔◌, inl, inr, true, false, Option, some, List, [], ◌∷◌, arith,
  ◌==◌, eq_iff, Bool-cases, ==-true, ==-false, Pairwise, Listed, All-Listed,
}
use Prim.Native.String.{[], ◌∷◌, ◌++◌}
use showroom_msp_chat_ui.Text.{has_char}
use showroom_msp_chat_ui.Errors.{Result, ok}
use showroom_msp_chat_ui.HostnamePolicy.{Validation, Object}
use showroom_msp_chat_ui.AccessPolicy.{
  Entry, Policy, Url, Decoder, parse, matches, select, select_from, validate_source, path, Source,
}
use showroom_msp_chat_ui.AccessPolicy.Parsing.{Differ, parse_access_iff}
use showroom_msp_chat_ui.Text.Slashes.{cut}

abbrev pub IsMatch : Entry → Object → Type 0
IsMatch e object = (e.uid ≡ object.uid) × (e.namespace ≡ object.namespace) × (e.name ≡ object.name)

matches_iff : (e : Entry) (object : Object) → (matches e object ≡ true) ↔ IsMatch e object
matches_iff e object =
    ground (
      arith,
      eq_iff e.uid object.uid,
      eq_iff e.namespace object.namespace,
      eq_iff e.name object.name,
    )

select_from-Listed :
    (es : List Entry) (object : Object) (e : Entry)
    → select_from es object ≡ ok e
    → Listed e es × IsMatch e object
unfolding select_from
select_from-Listed [] object e h = cc
select_from-Listed (x ∷ es) object e h = elim (Bool-cases (matches x object)) [
  | inl here ↦
      let same : x ≡ e = ground arith in (inl same, rw (← same) ((matches_iff x object).0 here))
  | inr later ↦ let (l, m) = select_from-Listed es object e (ground arith) in (inr l, m)
]

Listed-select_from :
    (es : List Entry) (object : Object) (e : Entry)
    → Pairwise Differ es
    → Listed e es
    → IsMatch e object
    → select_from es object ≡ ok e
unfolding select_from
Listed-select_from [] object e _ l m = absurd l
Listed-select_from (x ∷ es) object e (d, ds) (inl same) m =
    rw ((matches_iff x object).1 (rw same m)) (ap ok same)
Listed-select_from (x ∷ es) object e (d, ds) (inr l) m = elim (Bool-cases (matches x object)) [
  | inl here ↦
      absurd ((All-Listed (Differ x) e es d l).uid (((matches_iff x object).0 here).0 ∙ sym m.0))
  | inr other ↦ rw other (Listed-select_from es object e ds l m)
]

module _ (v : Validation) (parse_url : String → Option Url) where
  -- Under a parsed policy, Select answers with a mapping exactly when the object's UID is set and
  -- the mapping is one of the policy's with the object's UID, namespace and name.
  pub select_access_iff :
      (decoder : Decoder Policy) (read : Result String) (p : Policy) (object : Object) (e : Entry)
      → parse v parse_url decoder read ≡ ok p
      → (select (some p) object ≡ ok e)
        ↔ ((object.uid ≢ "") × Listed e p.entries × IsMatch e object)
  unfolding select
  select_access_iff decoder read p object e parsed =
      let apart = ((parse_access_iff v parse_url decoder read p).0 parsed).apart in
      elim (Bool-cases (object.uid == "")) [
        | inl empty ↦ rw empty ((λ h. cc), λ (set, _, _). absurd (set (==-true empty)))
        | inr set ↦ rw set (
          λ h. let (l, m) = select_from-Listed p.entries object e h in (==-false set, l, m),
          λ (_, l, m). Listed-select_from p.entries object e apart l m,
        )
      ]

  -- What is documented of the DNS checks: no label and no subdomain holds a slash.
  pub record IsSlashFree : Type 0 where
    pub label : (s : String) → v.is_label s ≡ true → has_char b'/' s ≡ false
    pub subdomain : (s : String) → v.is_subdomain s ≡ true → has_char b'/' s ≡ false

  validate_source-parts :
      (s : Source)
      → validate_source v parse_url s ≡ ok tt
      → (v.is_label s.cluster ≡ true)
        × (v.is_label s.namespace ≡ true)
        × (v.is_subdomain s.name ≡ true)
  unfolding validate_source
  validate_source-parts s h = ground arith

  -- Two sources that Validate accepts and that have one path agree in cluster, namespace and
  -- name, where DNS labels and subdomains hold no slash: the permission check asks for exactly
  -- the configured object.
  pub path-injective :
      (s t : Source)
      → IsSlashFree
      → validate_source v parse_url s ≡ ok tt
      → validate_source v parse_url t ≡ ok tt
      → path s ≡ path t
      → (s.cluster ≡ t.cluster) × (s.namespace ≡ t.namespace) × (s.name ≡ t.name)
  unfolding path
  path-injective s t free hs ht e =
      let (cs, ns, ms) = validate_source-parts s hs in
      let (ct, nt, mt) = validate_source-parts t ht in
      let apis = append_assoc "/" "apis/ui.privatellms.msp/v1alpha1/namespaces/" in
      let kinds = append_assoc "/" "chatuiinstances/" in
      let e1 = append_cancel_left "/clusters/" _ _ e in
      let (cluster, e2) =
        cut s.cluster t.cluster _ _ (free.label _ cs) (free.label _ ct)
          (ap (λ r. s.cluster ++ r) (sym (apis _)) ∙ (e1 ∙ ap (λ r. t.cluster ++ r) (apis _))) in
      let e3 = append_cancel_left "apis/ui.privatellms.msp/v1alpha1/namespaces/" _ _ e2 in
      let (namespace, e4) = cut s.namespace t.namespace _ _ (free.label _ ns) (free.label _ nt) (
        ap (λ r. s.namespace ++ r) (sym (kinds _)) ∙ (e3 ∙ ap (λ r. t.namespace ++ r) (kinds _))) in
      (cluster, namespace, append_cancel_left "chatuiinstances/" s.name t.name e4)
