-- ===== src/HostnamePolicy.antt =====
-- internal/hostnamepolicy/policy.go: which hostname an instance gets.
--
-- The checks of k8s.io/apimachinery's validation package, encoding/json, time.Parse and the digest
-- are parameters. A timestamp is a number, and 0 is Go's zero time.
pub mod Names
pub mod Parsing
pub mod Selecting
pub mod Uniqueness
pub mod Publishing
pub mod Samples
mod Examples
use Prim.Native.Char.{nul}
use Prim.Native.String.{[], ◌∷◌, ◌++◌, len}
use showroom_msp_chat_ui.Prelude.{
  ℕ, zero, suc, ◌/◌, ◌%◌, Char, code, String, Bool, true, false, ◌&&◌, ◌||◌, not, Option, none,
  some, List, ◌==◌, ltb, leb, eqb, if◌then◌else◌, any, [], ◌∷◌,
}
use mathlib.Core.List.{[], ◌∷◌}
use showroom_msp_chat_ui.Text.{has_prefix, drop, trim_space, split, repeat, pick}
use showroom_msp_chat_ui.Dictionary.{Map, lookup, insert, has}
use showroom_msp_chat_ui.Errors.{
  Error, sentinel, message, wrapped, legacy_unmapped, identity, Result, ok, err, ◌>>=◌, ◌>>◌,
  fail_if, with_context,
}

-- validation.IsDNS1123Label and IsDNS1123Subdomain, as whether they find no fault
pub record Validation : Type 0 where
  pub is_label : String → Bool
  pub is_subdomain : String → Bool

pub record Entry : Type 0 where
  pub uid : String
  pub namespace : String
  pub name : String
  pub mode : String
  pub slug : String

pub record Configuration : Type 0 where
  pub cutover : String
  pub entries : List Entry

pub record Policy : Type 0 where
  pub cutover : ℕ
  pub entries : Map Entry

pub record Selection : Type 0 where
  pub slug : String
  pub source : String

-- What Select reads of a metav1.Object: UID, namespace, name and creation timestamp.
pub record Object : Type 0 where
  pub uid : String
  pub namespace : String
  pub name : String
  pub created : ℕ

abbrev pub legacy_mode : String
legacy_mode = "legacy"

abbrev pub derive_mode : String
derive_mode = "derive"

abbrev pub invalid_host : String
invalid_host = "PUBLIC_HOST and selected slug must form a valid DNS hostname"

-- [a-f0-9]
abbrev pub is_hex : Char → Bool
is_hex c = (leb b'a' (code c) && leb (code c) b'f') || (leb b'0' (code c) && leb (code c) b'9')

-- [a-f0-9]{n}$
unfoldable pub hex_run : ℕ → String → Bool
hex_run zero [] = true
hex_run zero (c ∷ s) = false
hex_run (suc n) [] = false
hex_run (suc n) (c ∷ s) = is_hex c && hex_run n s

-- ^ui-[a-f0-9]{32}$
unfoldable pub is_reserved : String → Bool
unfolding has_prefix drop hex_run
is_reserved s = has_prefix s "ui-" && hex_run 32 (drop 3 s)

-- The policy's entries, and the maps slugs and identities, of which only the keys are read.
pub record Loading : Type 0 where
  pub entries : Map Entry
  pub slugs : List String
  pub identities : List String

-- json.Decoder with DisallowUnknownFields on a whole text: the first document, with Go's error, and
-- whether io.EOF follows it; and time.Parse for RFC 3339, where 0 is the zero time.
pub record Json : Type 0 where
  pub decode : String → Result Configuration
  pub is_single : String → Bool
  pub parse_time : String → Option ℕ

abbrev pub mem : String → List String → Bool
mem s = any (λ t. t == s)

abbrev pub no_cutover : Error
no_cutover = message "hostname policy requires a fixed RFC3339 cutover timestamp"

abbrev pub fixed_cutover : Option ℕ → Result ℕ
fixed_cutover none = err no_cutover
fixed_cutover (some t) = if eqb t 0 then err no_cutover else ok t

-- digest[:n]
unfoldable pub first : ℕ → List ℕ → List ℕ
first zero bs = []
first (suc n) [] = []
first (suc n) (b ∷ bs) = b ∷ first n bs

module _ (v : Validation) where
  -- the loop over the labels of a host
  unfoldable pub check_labels : List String → Result (Unit {0})
  check_labels [] = ok tt
  check_labels (label ∷ labels) =
      let rest = check_labels labels in
      if not (v.is_label label) then err (message invalid_host) else rest

  unfoldable pub host : String → String → Result String
  host base slug = do
    let full = slug ++ ("." ++ trim_space base)
    fail_if (not (v.is_label slug) || not (v.is_subdomain full)) invalid_host
    check_labels (split b'.' full)
    ok full

  unfoldable pub check_entries : String → Map Entry → Result (Unit {0})
  check_entries base [] = ok tt
  check_entries base ((uid, item) ∷ items) =
      let rest = check_entries base items in
      if item.mode == legacy_mode then (do host base item.slug; rest) else rest

  unfoldable pub validate_public_host : Policy → String → Result (Unit {0})
  unfolding check_entries
  validate_public_host p base = do host base ("ui-" ++ repeat "a" 32); check_entries base p.entries

  abbrev pub needs_identity : Entry → Bool
  needs_identity item =
      item.uid == ""
      || not (trim_space item.uid == item.uid)
      || not (v.is_label item.namespace)
      || not (v.is_subdomain item.name)

  abbrev pub validate_mode : Entry → Result (Unit {0})
  validate_mode item =
      if item.mode == legacy_mode
      then fail_if (not (v.is_label item.slug) || is_reserved item.slug)
          "legacy slug must be a DNS label outside the reserved ui-<32 hex> format"
      else if item.mode == derive_mode
      then fail_if (not (item.slug == "")) "derive entries must not supply a slug"
      else err (message "hostname policy entry mode must be legacy or derive")

  unfoldable pub validate_entry : Entry → Result (Unit {0})
  validate_entry item = do
    fail_if (needs_identity item) "hostname policy entry requires UID, namespace and name"
    validate_mode item

  abbrev pub identity_of : Entry → String
  identity_of item = item.namespace ++ ("/" ++ item.name)

  -- One round of the loop of Parse.
  unfoldable pub load_entry : Entry → Loading → Result Loading
  unfolding validate_entry
  load_entry item l = do
    validate_entry item
    fail_if (has item.uid l.entries || mem (identity_of item) l.identities)
        "hostname policy contains duplicate instance identity"
    fail_if (item.mode == legacy_mode && mem item.slug l.slugs)
        "hostname policy contains duplicate legacy slug"
    ok (record {
      entries = insert item.uid item l.entries;
      slugs = if item.mode == legacy_mode then item.slug ∷ l.slugs else l.slugs;
      identities = identity_of item ∷ l.identities;
    })

  unfoldable pub load_entries : List Entry → Loading → Result Loading
  load_entries [] l = ok l
  load_entries (item ∷ items) l = load_entry item l >>= load_entries items

  -- `read` is what reading at most 1 MiB and one byte gave.
  unfoldable pub parse : Json → Result String → Result Policy
  unfolding load_entries
  parse json (err e) = err (wrapped "read hostname policy" e)
  parse json (ok text) = do
    fail_if (ltb 1048576 (len text)) "hostname policy exceeds 1 MiB"
    config ← with_context "decode hostname policy" (json.decode text)
    fail_if (not (json.is_single text)) "hostname policy must contain exactly one JSON document"
    cutover ← fixed_cutover (json.parse_time config.cutover)
    l ← load_entries config.entries (record { entries = []; slugs = []; identities = [] })
    ok (record { cutover = cutover; entries = l.entries })

-- The digest of the text, as hex.EncodeToString(digest[:16]).
abbrev pub hex_digit : ℕ → Char
hex_digit = pick "0123456789abcdef" nul

unfoldable pub hex : List ℕ → String
hex [] = []
hex (b ∷ bs) = hex_digit (b / 16) ∷ hex_digit (b % 16) ∷ hex bs

unfoldable pub derived_slug : (String → List ℕ) → String → String
unfolding hex
derived_slug sha256 uid = "ui-" ++ hex (first 16 (sha256 ("ui.privatellms.msp/slug/v1:" ++ uid)))

-- Select for an instance whose UID is mapped: its entry, or the identity error
abbrev pub select_mapped : (String → List ℕ) → Entry → Object → Result Selection
select_mapped sha256 item object =
    if not (item.namespace == object.namespace) || not (item.name == object.name)
    then err (sentinel identity)
    else if item.mode == legacy_mode
    then ok (record { slug = item.slug; source = "Legacy" })
    else ok (record { slug = derived_slug sha256 object.uid; source = "Derived" })

-- `none` is a nil policy.
unfoldable pub select : (String → List ℕ) → Option Policy → Object → Result Selection
select sha256 none object = err (sentinel identity)
select sha256 (some p) object =
    if object.uid == "" || eqb object.created 0
    then err (sentinel identity)
    else elim (lookup object.uid p.entries) [
      | some item ↦ select_mapped sha256 item object
      | none ↦
          if not (ltb p.cutover object.created)
          then err (sentinel legacy_unmapped)
          else ok (record { slug = derived_slug sha256 object.uid; source = "Derived" })
    ]
