-- ===== src/HostnamePolicy/Selecting.antt =====
-- What Select answers under a parsed policy, and that its slugs keep instances apart.
use showroom_msp_chat_ui.Prelude.{
  ℕ, ◌<◌, String, ◌≡◌, ◌≢◌, ◌↔◌, ◌⊎◌, inl, inr, none, some, List, arith, eq_iff, Option-cases,
}
use showroom_msp_chat_ui.Dictionary.{lookup}
use showroom_msp_chat_ui.Errors.{ok}
use showroom_msp_chat_ui.HostnamePolicy.{
  Entry, Policy, Selection, Object, legacy_mode, derived_slug, select, select_mapped,
}

abbrev pub derived : (String → List ℕ) → Object → Selection
derived sha256 object = record { slug = derived_slug sha256 object.uid; source = "Derived" }

-- The selection of an instance by its entry.
abbrev pub IsMapped : (String → List ℕ) → Entry → Object → Selection → Type 0
IsMapped sha256 item object s =
    (item.namespace ≡ object.namespace)
    × (item.name ≡ object.name)
    × (((item.mode ≡ legacy_mode) × (s ≡ record { slug = item.slug; source = "Legacy" }))
        ⊎ ((item.mode ≢ legacy_mode) × (s ≡ derived sha256 object)))

abbrev pub IsSelected : (String → List ℕ) → Policy → Object → Selection → Type 0
IsSelected sha256 p object s =
    (object.uid ≢ "")
    × (object.created ≢ 0)
    × (((item : Entry) × (lookup object.uid p.entries ≡ some item) × IsMapped sha256 item object s)
        ⊎ ((lookup object.uid p.entries ≡ none)
            × (p.cutover < object.created)
            × (s ≡ derived sha256 object)))

module _ (sha256 : String → List ℕ) where
  select_mapped_iff :
      (item : Entry) (object : Object) (s : Selection)
      → (select_mapped sha256 item object ≡ ok s) ↔ IsMapped sha256 item object s
  select_mapped_iff item object s = ground (
    arith,
    eq_iff item.namespace object.namespace,
    eq_iff item.name object.name,
    eq_iff item.mode legacy_mode,
  )

  -- Select answers with `s` exactly when the UID and the creation time are set and either the UID
  -- is mapped with this namespace and name, where a legacy entry gives its slug and any other the
  -- derived one, or the UID is not mapped and the object is younger than the cutover, which gives the derived one.
  pub select_iff :
      (p : Policy) (object : Object) (s : Selection)
      → (select sha256 (some p) object ≡ ok s) ↔ IsSelected sha256 p object s
  unfolding select
  select_iff p object s = elim (Option-cases (lookup object.uid p.entries)) [
    | inl e ↦ rw (e, select) (ground (arith, eq_iff object.uid ""))
    | inr (item, e) ↦
        rw (e, select) (ground (arith, select_mapped_iff item object s, eq_iff object.uid ""))
  ]
