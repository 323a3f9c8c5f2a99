-- ===== src/HostnamePolicy/Parsing.antt =====
-- What Parse accepts: the loop over the entries against a declarative reading of the document.
use Prim.Native.String.{len}
use mathlib.Core.List.{◌++◌, append_assoc, append-nil}
use showroom_msp_chat_ui.Dictionary.{lookup, insert_new, lookup-append, Map}
use showroom_msp_chat_ui.Errors.{
  Result, ok, >>=-eq-ok, err, fail_if, with_context, with_context-eq-ok,
}
use showroom_msp_chat_ui.HostnamePolicy.{
  Validation, Entry, Loading, mem, legacy_mode, identity_of, validate_entry, load_entry,
  load_entries, Json, Policy, Configuration, parse, fixed_cutover,
}
use showroom_msp_chat_ui.Prelude.{
  ◌≤◌, String, ◌≡◌, refl, sym, ap, ◌∙◌, ◌≢◌, ◌↔◌, inl, inr, true, false, none, some, List, [], ◌∷◌,
  map, arith, ◌==◌, eq_iff, if◌then◌else◌, Bool-cases, All, Pairwise, Option, ℕ, ltb, not,
}

-- Two entries that a policy may hold together.
pub record Differ (v : Validation) (a b : Entry) : Type 0 where
  pub uid : a.uid ≢ b.uid
  pub identity : identity_of v a ≢ identity_of v b
  pub slug : a.mode ≡ legacy_mode → b.mode ≡ legacy_mode → a.slug ≢ b.slug

module _ (v : Validation) where
  abbrev pub IsValid : Entry → Type 0
  IsValid item = validate_entry v item ≡ ok tt

  -- The loop's maps hold nothing of the entry.
  record Fresh (l : Loading) (item : Entry) : Type 0 where
    uid : lookup item.uid l.entries ≡ none
    identity : mem (identity_of v item) l.identities ≡ false
    slug : item.mode ≡ legacy_mode → mem item.slug l.slugs ≡ false

  add : Entry → Loading → Loading
  add item l = record {
    entries = l.entries ++ (item.uid, item) ∷ [];
    slugs = if item.mode == legacy_mode then item.slug ∷ l.slugs else l.slugs;
    identities = identity_of v item ∷ l.identities;
  }

  load_entry_sound :
      (item : Entry) (l l' : Loading)
      → load_entry v item l ≡ ok l'
      → IsValid item × Fresh l item × (l' ≡ add item l)
  unfolding load_entry add
  load_entry_sound item l l' h =
      ground (arith, insert_new item.uid item l.entries, eq_iff item.mode legacy_mode)

  load_entry_complete :
      (item : Entry) (l : Loading)
      → IsValid item
      → Fresh l item
      → load_entry v item l ≡ ok (add item l)
  unfolding load_entry add
  load_entry_complete item l valid f =
      ground (arith, insert_new item.uid item l.entries, eq_iff item.mode legacy_mode)

  -- The maps after one more entry hold nothing of `x` if they held nothing before and the entry
  -- differs from `x`; map by map.
  new_uid_iff :
      (item x : Entry) (m : Map Entry)
      → (lookup x.uid (m ++ (item.uid, item) ∷ []) ≡ none)
        ↔ ((lookup x.uid m ≡ none) × (item.uid ≢ x.uid))
  unfolding lookup
  new_uid_iff item x m =
      ground (arith, lookup-append x.uid m ((item.uid, item) ∷ []), eq_iff item.uid x.uid)

  new_slug_iff :
      (item x : Entry) (slugs : List String)
      → (x.mode ≡ legacy_mode
          → mem x.slug (if item.mode == legacy_mode then item.slug ∷ slugs else slugs) ≡ false)
        ↔ ((x.mode ≡ legacy_mode → mem x.slug slugs ≡ false)
            × (item.mode ≡ legacy_mode → x.mode ≡ legacy_mode → item.slug ≢ x.slug))
  new_slug_iff item x slugs = elim (Bool-cases (item.mode == legacy_mode)) [
    | inl e ↦ rw e (ground (arith, eq_iff item.slug x.slug, eq_iff item.mode legacy_mode))
    | inr e ↦ rw e (ground (arith, eq_iff item.mode legacy_mode))
  ]

  Fresh-add_iff :
      (item x : Entry) (l : Loading) → Fresh (add item l) x ↔ (Fresh l x × Differ v item x)
  unfolding add
  Fresh-add_iff item x l =
      let (u, u') = new_uid_iff item x l.entries in
      let (s, s') = new_slug_iff item x l.slugs in
      let same = eq_iff (identity_of v item) (identity_of v x) in
      (
        λ f. (
          record { uid = (u f.uid).0; identity = ground (arith, f.identity); slug = (s f.slug).0 },
          record { uid = (u f.uid).1; identity = ground (arith, f.identity); slug = (s f.slug).1 },
        ),
        λ (f, d). record {
          uid = u' (f.uid, d.uid);
          identity = ground (arith, f.identity, d.identity);
          slug = s' (f.slug, d.slug);
        },
      )

  add_all : List Entry → Loading → Loading
  add_all [] l = l
  add_all (item ∷ items) l = add_all items (add item l)

  All-Fresh-add :
      (item : Entry) (items : List Entry) (l : Loading)
      → All (Fresh (add item l)) items ↔ (All (Fresh l) items × All (Differ v item) items)
  All-Fresh-add item [] l = (λ _. (tt, tt), λ _. tt)
  All-Fresh-add item (x ∷ items) l =
      let (f, g) = Fresh-add_iff item x l in
      let (fs, gs) = All-Fresh-add item items l in
      (
        λ (h, hs). (((f h).0, (fs hs).0), ((f h).1, (fs hs).1)),
        λ (h, k). (g (h.0, k.0), gs (h.1, k.1)),
      )

  load_entries_sound :
      (items : List Entry) (l l' : Loading)
      → load_entries v items l ≡ ok l'
      → All IsValid items × All (Fresh l) items × Pairwise (Differ v) items × (l' ≡ add_all items l)
  unfolding load_entries add_all
  load_entries_sound [] l l' h = (tt, tt, tt, ground arith)
  load_entries_sound (item ∷ items) l l' h =
      let (m, one, more) = >>=-eq-ok (load_entry v item l) (load_entries v items) h in
      let (valid, fresh, same) = load_entry_sound item l m one in
      let (valids, news, apart, rest) = load_entries_sound items m l' more in
      let (old, differ) = (All-Fresh-add item items l).0 (rw same at news) in
      ((valid, valids), (fresh, old), (differ, apart), rest ∙ ap (add_all items) same)

  load_entries_complete :
      (items : List Entry) (l : Loading)
      → All IsValid items
      → All (Fresh l) items
      → Pairwise (Differ v) items
      → load_entries v items l ≡ ok (add_all items l)
  unfolding load_entries add_all
  load_entries_complete [] l _ _ _ = refl
  load_entries_complete (item ∷ items) l (valid, valids) (fresh, old) (differ, apart) =
      rw (load_entry_complete item l valid fresh) (
        load_entries_complete items (add item l) valids
          ((All-Fresh-add item items l).1 (old, differ)) apart)

  -- The document's entries, each under its UID.
  abbrev pub keyed : List Entry → Map Entry
  keyed = map (λ item. (item.uid, item))

  entries-add_all :
      (items : List Entry) (l : Loading) → (add_all items l).entries ≡ l.entries ++ keyed items
  unfolding add_all add
  entries-add_all [] l = sym (append-nil l.entries)
  entries-add_all (item ∷ items) l =
      entries-add_all items (add item l)
      ∙ append_assoc l.entries ((item.uid, item) ∷ []) (keyed items)

  abbrev start : Loading
  start = record { entries = []; slugs = []; identities = [] }

  Fresh-start : (items : List Entry) → All (Fresh start) items
  Fresh-start [] = tt
  Fresh-start (x ∷ items) =
      (record { uid = unfold lookup in refl; identity = refl; slug = λ _. refl }, Fresh-start items)

  -- What a document must be to give the policy `p`.
  pub record IsAccepted (json : Json) (read : Result String) (p : Policy) : Type 0 where
    pub text : String
    pub config : Configuration
    pub was_read : read ≡ ok text
    pub size : len text ≤ 1048576
    pub decoded : json.decode text ≡ ok config
    pub single : json.is_single text ≡ true
    pub cutover : json.parse_time config.cutover ≡ some p.cutover
    pub fixed : p.cutover ≢ 0
    pub valid : All IsValid config.entries
    pub apart : Pairwise (Differ v) config.entries
    pub entries : p.entries ≡ keyed config.entries

  -- The loop from empty maps, for the entries of a document.
  load_start_iff :
      (items : List Entry) (m : Map Entry)
      → ((l : Loading) × (load_entries v items start ≡ ok l) × (m ≡ l.entries))
        ↔ (All IsValid items × Pairwise (Differ v) items × (m ≡ keyed items))
  load_start_iff items m = (
    λ (l, done, same).
        let (valid, _, apart, e) = load_entries_sound items start l done in
        (valid, apart, same ∙ (ap (λ k. k.entries) e ∙ entries-add_all items start)),
    λ (valid, apart, same). (
      add_all items start,
      load_entries_complete items start valid (Fresh-start items) apart,
      same ∙ sym (entries-add_all items start),
    ),
  )

  fixed_cutover_iff : (o : Option ℕ) (t : ℕ) → (fixed_cutover o ≡ ok t) ↔ ((o ≡ some t) × (t ≢ 0))
  fixed_cutover_iff o t = ground arith

  parse_sound :
      (json : Json) (read : Result String) (p : Policy)
      → parse v json read ≡ ok p
      → IsAccepted json read p
  unfolding parse
  parse_sound json (err e) p h = cc
  parse_sound json (ok text) p h =
      let (_, small, h1) = >>=-eq-ok (fail_if (ltb 1048576 (len text)) _) _ h in
      let (config, decoded, h2) = >>=-eq-ok (with_context _ (json.decode text)) _ h1 in
      let (_, single, h3) = >>=-eq-ok (fail_if (not (json.is_single text)) _) _ h2 in
      let (cutover, fixed, h4) = >>=-eq-ok (fixed_cutover (json.parse_time config.cutover)) _ h3 in
      let (l, loaded, h5) = >>=-eq-ok (load_entries v config.entries start) _ h4 in
      let (given, nonzero) = (fixed_cutover_iff (json.parse_time config.cutover) cutover).0 fixed in
      let made : Policy = record { cutover = cutover; entries = l.entries } in
      let same : ok made ≡ ok p = h5 in
      let (valid, apart, entries) =
        (load_start_iff config.entries p.entries).0 (l, loaded, ground arith) in
      record {
        text = text;
        config = config;
        was_read = refl;
        size = ground arith;
        decoded = with_context-eq-ok _ (json.decode text) decoded;
        single = ground arith;
        cutover = ground arith;
        fixed = ground arith;
        valid = valid;
        apart = apart;
        entries = entries;
      }

  parse_complete :
      (json : Json) (read : Result String) (p : Policy)
      → IsAccepted json read p
      → parse v json read ≡ ok p
  unfolding parse
  parse_complete json (err e) p a = cc a.was_read
  parse_complete json (ok text) p a =
      let (l, loaded, same) =
        (load_start_iff a.config.entries p.entries).1 (a.valid, a.apart, a.entries) in
      let given =
        (fixed_cutover_iff (json.parse_time a.config.cutover) p.cutover).1 (a.cutover, a.fixed) in
      let said : text ≡ a.text = ground (arith, a.was_read) in
      rw (said, a.decoded, a.single, given, loaded) (ground (arith, a.size))

  -- Parse gives the policy `p` exactly for a document that could be read, is at most 1 MiB long and
  -- a single JSON document with a nonzero RFC 3339 cutover, whose entries are each valid and differ
  -- pairwise in UID, in namespace/name and, where both are legacy entries, in slug; `p` has that
  -- cutover, and the entries under their UIDs.
  pub parse_iff :
      (json : Json) (read : Result String) (p : Policy)
      → (parse v json read ≡ ok p) ↔ IsAccepted json read p
  parse_iff json read p = (parse_sound json read p, parse_complete json read p)
