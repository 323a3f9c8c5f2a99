-- ===== src/HostnamePolicy/Uniqueness.antt =====
-- Under one parsed policy no two instances get the same slug.
use showroom_msp_chat_ui.Prelude.{
  ℕ, String, ◌≡◌, sym, ap, ◌∙◌, ◌≢◌, inl, inr, false, some, List, [], ◌∷◌, arith, ◌==◌, eq_iff,
  Bool-cases, ==-true, All, Pairwise,
}
use Prim.Native.String.{◌++◌}
use showroom_msp_chat_ui.Dictionary.{lookup}
use showroom_msp_chat_ui.HostnamePolicy.{
  Validation, Entry, validate_entry, Policy, Json, Object, Result, legacy_mode, Selection, parse,
  is_reserved, derived_slug, select, ok, first,
}
use showroom_msp_chat_ui.HostnamePolicy.Parsing.{keyed, Differ, IsValid, IsAccepted, parse_iff}
use showroom_msp_chat_ui.HostnamePolicy.Selecting.{select_iff}
use showroom_msp_chat_ui.HostnamePolicy.Names.{
  IsDigest, derived_slug-is_reserved, derived_slug-injective,
}

module _ (v : Validation) where
  -- The entry of a UID is one of the document's.
  pub lookup-keyed :
      (P : Entry → Type 0) (u : String) (items : List Entry) {e : Entry}
      → lookup u (keyed v items) ≡ some e
      → All P items
      → P e × (e.uid ≡ u)
  unfolding lookup
  lookup-keyed P u [] h _ = cc
  lookup-keyed P u (item ∷ items) {e} h (p, ps) = elim (Bool-cases (item.uid == u)) [
    | inl same ↦ let here : item ≡ e = ground arith in rw (← here) (p, ==-true same)
    | inr other ↦ lookup-keyed P u items (ground arith) ps
  ]

  Differ-sym : {a b : Entry} → Differ v a b → Differ v b a
  Differ-sym d = record {
    uid = λ e. d.uid (sym e);
    identity = λ e. d.identity (sym e);
    slug = λ p q e. d.slug q p (sym e);
  }

  -- The entries of two UIDs differ.
  lookup_two :
      (u w : String) (items : List Entry) {a b : Entry}
      → Pairwise (Differ v) items
      → lookup u (keyed v items) ≡ some a
      → lookup w (keyed v items) ≡ some b
      → u ≢ w
      → Differ v a b
  unfolding lookup
  lookup_two u w [] _ h _ _ = cc
  lookup_two u w (item ∷ items) {a} {b} (differ, apart) h k ne = elim (Bool-cases (item.uid == u)) [
    | inl first ↦ elim (Bool-cases (item.uid == w)) [
      | inl second ↦ absurd (ne (sym (==-true first) ∙ ==-true second))
      | inr other ↦
          let here : item ≡ a = ground arith in
          rw (← here) (lookup-keyed (Differ v item) w items (ground arith) differ).0
    ]
    | inr miss ↦ elim (Bool-cases (item.uid == w)) [
      | inl second ↦
          let here : item ≡ b = ground arith in
          rw (← here) (Differ-sym (lookup-keyed (Differ v item) u items (ground arith) differ).0)
      | inr other ↦ lookup_two u w items apart (ground arith) (ground arith) ne
    ]
  ]

  -- A valid legacy entry keeps out of the reserved names.
  legacy_not_reserved :
      (item : Entry) → IsValid v item → item.mode ≡ legacy_mode → is_reserved item.slug ≡ false
  unfolding validate_entry
  legacy_not_reserved item h e = ground (arith, eq_iff item.mode legacy_mode)

  -- Where a slug comes from: a legacy entry of the document, or the digest.
  pub data Origin (p : Policy) (sha256 : String → List ℕ) (object : Object) (slug : String)
      : Type 0 where
    legacy :
        (item : Entry)
        → lookup object.uid p.entries ≡ some item
        → item.mode ≡ legacy_mode
        → slug ≡ item.slug
        → Origin p sha256 object slug
    digest : slug ≡ derived_slug sha256 object.uid → Origin p sha256 object slug

  pub select-Origin :
      (sha256 : String → List ℕ) (p : Policy) (object : Object) (s : Selection)
      → select sha256 (some p) object ≡ ok s
      → Origin p sha256 object s.slug
  select-Origin sha256 p object s h = elim ((select_iff sha256 p object s).0 h).2 [
    | inl (item, found, (_, _, inl (mode, same))) ↦ legacy item found mode (ap (λ t. t.slug) same)
    | inl (item, found, (_, _, inr (mode, same))) ↦ digest (ap (λ t. t.slug) same)
    | inr (_, _, same) ↦ digest (ap (λ t. t.slug) same)
  ]

  module _ (json : Json) (read : Result String) (p : Policy) (parsed : parse v json read ≡ ok p)
      (sha256 : String → List ℕ) (d : IsDigest sha256) where
    accepted : IsAccepted v json read p
    accepted = (parse_iff v json read p).0 parsed

    -- A legacy slug is never a derived one.
    legacy-ne-digest :
        (u w : String) (item : Entry)
        → lookup u p.entries ≡ some item
        → item.mode ≡ legacy_mode
        → item.slug ≢ derived_slug sha256 w
    legacy-ne-digest u w item found mode same =
        let listed = rw accepted.entries at found in
        let valid = (lookup-keyed (IsValid v) u accepted.config.entries listed accepted.valid).0 in
        cc (
          legacy_not_reserved item valid mode,
          derived_slug-is_reserved sha256 w d,
          ap is_reserved same,
        )

    Origin-ne :
        (o1 o2 : Object) {s1 s2 : String}
        → Origin p sha256 o1 s1
        → Origin p sha256 o2 s2
        → o1.uid ≢ o2.uid
        → derived_slug sha256 o1.uid ≢ derived_slug sha256 o2.uid
        → s1 ≢ s2
    Origin-ne o1 o2 (legacy a fa ma ea) (legacy b fb mb eb) ne far e =
        let differ =
          lookup_two o1.uid o2.uid accepted.config.entries accepted.apart
            (rw accepted.entries at fa) (rw accepted.entries at fb) ne in
        differ.slug ma mb (sym ea ∙ (e ∙ eb))
    Origin-ne o1 o2 (legacy a fa ma ea) (digest eb) ne far e =
        legacy-ne-digest o1.uid o2.uid a fa ma (sym ea ∙ (e ∙ eb))
    Origin-ne o1 o2 (digest ea) (legacy b fb mb eb) ne far e =
        legacy-ne-digest o2.uid o1.uid b fb mb (sym eb ∙ (sym e ∙ ea))
    Origin-ne o1 o2 (digest ea) (digest eb) ne far e = far (sym ea ∙ (e ∙ eb))

  -- Two objects with different UIDs for which one parsed policy selects slugs get different
  -- slugs, legacy or derived, where the digest has 32 bytes and its first 16 bytes tell the two
  -- UIDs apart.
  pub select_distinct :
      (json : Json) (read : Result String) (p : Policy) (sha256 : String → List ℕ) (a b : Object)
      (s t : Selection)
      → parse v json read ≡ ok p
      → IsDigest sha256
      → select sha256 (some p) a ≡ ok s
      → select sha256 (some p) b ≡ ok t
      → a.uid ≢ b.uid
      → first 16 (sha256 ("ui.privatellms.msp/slug/v1:" ++ a.uid))
        ≢ first 16 (sha256 ("ui.privatellms.msp/slug/v1:" ++ b.uid))
      → s.slug ≢ t.slug
  select_distinct json read p sha256 a b s t parsed d hs ht ne far =
      Origin-ne json read p parsed sha256 d a b (select-Origin sha256 p a s hs)
        (select-Origin sha256 p b t ht) ne
        (λ e. far (derived_slug-injective sha256 a.uid b.uid d e))
