-- ===== src/HostnamePolicy/Names.antt =====
-- Derived slugs and complete hostnames.
use Prim.Native.String.{[], ◌∷◌, ◌++◌}
use text.Mathlib.TextLemmas.{append_cancel_left, cons-append, nil-append}
use showroom_msp_chat_ui.Text.{pick, split, trim_space}
use showroom_msp_chat_ui.Errors.{ok}
use showroom_msp_chat_ui.HostnamePolicy.{
  Validation, is_hex, hex_run, is_reserved, hex, hex_digit, first, derived_slug, host, check_labels,
}
use showroom_msp_chat_ui.Prelude.{
  ℕ, zero, suc, ◌+◌, ◌/◌, ◌%◌, ◌≤◌, ◌<◌, String, ◌≡◌, refl, ◌↔◌, true, List, arith, length, All,
  all_below, all_below_sound, Char, eqb, ◌*◌, ap, sym, ◌∙◌, if◌then◌else◌, leb, code, ◌-◌, [], ◌∷◌,
}

-- What is documented of SHA-256: 32 bytes.
pub record IsDigest (sha256 : String → List ℕ) : Type 0 where
  pub size : (text : String) → length (sha256 text) ≡ 32
  pub bytes : (text : String) → All (λ b. b < 256) (sha256 text)

hex_table : all_below (λ n. is_hex (hex_digit n)) 16 ≡ true
unfolding all_below pick
hex_table = refl

hex_digit-is_hex : (n : ℕ) → n < 16 → is_hex (hex_digit n) ≡ true
hex_digit-is_hex n h = all_below_sound _ 16 n h hex_table

hex_run-hex :
    (bs : List ℕ) → All (λ b. b < 256) bs → hex_run (length bs + length bs) (hex bs) ≡ true
unfolding hex_run hex
hex_run-hex [] h = refl
hex_run-hex (b ∷ bs) (p, h) =
    let twice : suc (length bs) + suc (length bs) ≡ suc (suc (length bs + length bs)) =
      omega arith in
    rw (twice, hex_digit-is_hex (b / 16) (omega arith), hex_digit-is_hex (b % 16) (omega arith))
      (hex_run-hex bs h)

length-first : (n : ℕ) (bs : List ℕ) → n ≤ length bs → length (first n bs) ≡ n
unfolding first
length-first zero bs h = refl
length-first (suc n) [] h = absurd (omega arith)
length-first (suc n) (b ∷ bs) h = omega (arith, length-first n bs (omega arith))

All-first {κ} : (P : ℕ → Type κ) (n : ℕ) (bs : List ℕ) → All P bs → All P (first n bs)
unfolding first
All-first P zero bs h = tt
All-first P (suc n) [] h = tt
All-first P (suc n) (b ∷ bs) (p, h) = (p, All-first P n bs h)

is_reserved-ui : (s : String) → is_reserved ("ui-" ++ s) ≡ hex_run 32 s
unfolding is_reserved
is_reserved-ui s = rw (cons-append, cons-append, cons-append, nil-append)

-- Every derived slug has the reserved format ui-<32 hex>, where the digest has 32 bytes.
pub derived_slug-is_reserved :
    (sha256 : String → List ℕ) (uid : String)
    → IsDigest sha256
    → is_reserved (derived_slug sha256 uid) ≡ true
unfolding derived_slug
derived_slug-is_reserved sha256 uid d =
    let bs = sha256 ("ui.privatellms.msp/slug/v1:" ++ uid) in
    let short : length (first 16 bs) ≡ 16 =
      length-first 16 bs (omega (arith, d.size ("ui.privatellms.msp/slug/v1:" ++ uid))) in
    let run = hex_run-hex (first 16 bs) (All-first (λ b. b < 256) 16 bs (d.bytes _)) in
    rw is_reserved-ui (rw short at run)

check_labels_iff :
    (v : Validation) (labels : List String)
    → (check_labels v labels ≡ ok tt) ↔ All (λ l. v.is_label l ≡ true) labels
unfolding check_labels
check_labels_iff v [] = (λ _. tt, λ _. refl)
check_labels_iff v (l ∷ labels) = ground (arith, check_labels_iff v labels)

-- Host returns exactly the slug, a dot and the trimmed base, and does so exactly when the slug and
-- every label of the whole are DNS labels and the whole is a DNS subdomain.
pub host_iff :
    (v : Validation) (base slug full : String)
    → (host v base slug ≡ ok full) ↔ (
        (full ≡ slug ++ ("." ++ trim_space base))
        × (v.is_label slug ≡ true)
        × (v.is_subdomain full ≡ true)
        × All (λ l. v.is_label l ≡ true) (split b'.' full))
unfolding host
host_iff v base slug full =
    ground (arith, check_labels_iff v (split b'.' (slug ++ ("." ++ trim_space base))))

digit_value : Char → ℕ
digit_value c = if leb b'a' (code c) then code c - b'a' + 10 else code c - b'0'

value_table : all_below (λ n. eqb (digit_value (hex_digit n)) n) 16 ≡ true
unfolding all_below pick digit_value
value_table = refl

digit_value-hex_digit : (n : ℕ) → n < 16 → digit_value (hex_digit n) ≡ n
digit_value-hex_digit n h =
    ground (arith, all_below_sound (λ n. eqb (digit_value (hex_digit n)) n) 16 n h value_table)

unhex : String → List ℕ
unhex [] = []
unhex (c ∷ []) = []
unhex (c ∷ d ∷ s) = (digit_value c * 16 + digit_value d) ∷ unhex s

unhex-hex : (bs : List ℕ) → All (λ b. b < 256) bs → unhex (hex bs) ≡ bs
unfolding unhex hex
unhex-hex [] h = refl
unhex-hex (b ∷ bs) (p, h) =
    rw
      (
        digit_value-hex_digit (b / 16) (omega arith),
        digit_value-hex_digit (b % 16) (omega arith),
        unhex-hex bs h,
      )
      (ap (λ n. n ∷ bs) (omega arith))

-- Two UIDs with one derived slug have the same first 16 bytes of the digest of their texts, where
-- the digest has 32 bytes.
pub derived_slug-injective :
    (sha256 : String → List ℕ) (a b : String)
    → IsDigest sha256
    → derived_slug sha256 a ≡ derived_slug sha256 b
    → first 16 (sha256 ("ui.privatellms.msp/slug/v1:" ++ a))
      ≡ first 16 (sha256 ("ui.privatellms.msp/slug/v1:" ++ b))
unfolding derived_slug
derived_slug-injective sha256 a b d e =
    let bytes = λ (t : String). All-first (λ b. b < 256) 16 (sha256 t) (d.bytes t) in
    let same = append_cancel_left "ui-" _ _ e in
    sym (unhex-hex _ (bytes _)) ∙ (ap unhex same ∙ unhex-hex _ (bytes _))
