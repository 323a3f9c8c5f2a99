-- ===== src/Controller/Routes/Claims.antt =====
-- Which rules claim a hostname.
use showroom_msp_chat_ui.Prelude.{
  ℕ, ◌+◌, String, ◌≡◌, refl, sym, ap, ◌∙◌, ◌↔◌, inl, inr, true, false, [], ◌∷◌, arith, ◌==◌,
  eq_refl, Bool-cases, ==-true, ◌⊎◌, Bool, ◌&&◌, eqb, if◌then◌else◌,
}
use Prim.Native.String.{[], ◌∷◌, ◌++◌}
use text.Mathlib.TextLemmas.{nil-append, cons-append}
use showroom_msp_chat_ui.Text.{has_suffix, count_char, has_char, lower, has_prefix, drop}
use showroom_msp_chat_ui.Controller.Routes.{claims_host}

has_suffix_self : (t : String) → has_suffix t t ≡ true
unfolding has_suffix
has_suffix_self [] = eq_refl ""
has_suffix_self (c ∷ t) = rw (eq_refl (c ∷ t)) refl

has_suffix-append : (s t : String) → has_suffix (s ++ t) t ≡ true
unfolding has_suffix
has_suffix-append [] t = rw (nil-append t) (has_suffix_self t)
has_suffix-append (c ∷ s) t =
    let rest = has_suffix-append s t in rw (cons-append c s t, has_suffix, rest) (ground arith)

has_suffix-split : (s t : String) → has_suffix s t ≡ true → (u : String) × (s ≡ u ++ t)
unfolding has_suffix
has_suffix-split [] t h = ("", ==-true h ∙ sym (nil-append t))
has_suffix-split (c ∷ s) t h = elim (Bool-cases ((c ∷ s) == t)) [
  | inl here ↦ ("", ==-true here ∙ sym (nil-append t))
  | inr later ↦
      let (u, e) = has_suffix-split s t (ground arith) in
      (c ∷ u, ap (λ r. c ∷ r) e ∙ sym (cons-append c u t))
]

count_char-append : (n : ℕ) (s t : String) → count_char n (s ++ t) ≡ count_char n s + count_char n t
unfolding count_char
count_char-append n [] t = rw (nil-append t) (omega arith)
count_char-append n (c ∷ s) t =
    rw (cons-append c s t, count_char) (omega (arith, count_char-append n s t))

count_char-has_char_iff : (n : ℕ) (s : String) → (count_char n s ≡ 0) ↔ (has_char n s ≡ false)
unfolding count_char has_char
count_char-has_char_iff n [] = (λ _. refl, λ _. refl)
count_char-has_char_iff n (c ∷ s) = ground (arith, count_char-has_char_iff n s)

count_dot-cons : (t : String) → count_char b'.' ("." ++ t) ≡ count_char b'.' t + 1
unfolding count_char
count_dot-cons t = rw (cons-append, nil-append, count_char) (omega arith)

-- One label without a dot in front of a domain.
abbrev pub IsLabelOf : String → String → Type 0
IsLabelOf domain host =
    (label : String) × (has_char b'.' label ≡ false) × (host ≡ label ++ ("." ++ domain))

covers_sound :
    (domain host : String)
    → has_suffix host ("." ++ domain) ≡ true
    → count_char b'.' host ≡ count_char b'.' domain + 1
    → IsLabelOf domain host
covers_sound domain host suffix dots =
    let (label, e) = has_suffix-split host ("." ++ domain) suffix in
    let sum = count_char-append b'.' label ("." ++ domain) in
    let one = count_dot-cons domain in
    let all_dots : count_char b'.' host ≡ count_char b'.' (label ++ ("." ++ domain)) =
      ap (λ r. count_char b'.' r) e in
    (label, (count_char-has_char_iff b'.' label).0 (omega (arith, sum, one, all_dots, dots)), e)

covers_complete :
    (domain host : String)
    → IsLabelOf domain host
    → (has_suffix host ("." ++ domain) ≡ true) × (count_char b'.' host ≡ count_char b'.' domain + 1)
covers_complete domain host (label, no_dot, e) =
    let none_in_label = (count_char-has_char_iff b'.' label).1 no_dot in
    let sum = count_char-append b'.' label ("." ++ domain) in
    let one = count_dot-cons domain in
    rw e (has_suffix-append label ("." ++ domain), omega (arith, sum, one, none_in_label))

claim_iff :
    (equal wildcard suffix : Bool) (m n : ℕ)
    → ((if equal then true else if wildcard then suffix && eqb m n else false) ≡ true)
      ↔ ((equal ≡ true) ⊎ ((wildcard ≡ true) × (suffix ≡ true) × (m ≡ n)))
claim_iff equal wildcard suffix m n = ground arith

-- A rule claims a host exactly when, in lower case, the two are equal, or the rule starts with *. and
-- the host is one label, which may be empty, in front of a dot and the rest of the rule.
pub claims_host_iff :
    (rule host : String)
    → (claims_host rule host ≡ true) ↔ (
        (lower rule ≡ lower host)
        ⊎ ((has_prefix (lower rule) "*." ≡ true) × IsLabelOf (drop 2 (lower rule)) (lower host)))
unfolding claims_host
claims_host_iff rule host =
    let r = lower rule in
    let h = lower host in
    let domain = drop 2 r in
    let (f, b) =
      claim_iff (r == h) (has_prefix r "*.") (has_suffix h ("." ++ domain)) (count_char b'.' h)
        (count_char b'.' domain + 1) in
    (
      λ c. elim (f c) [
        | inl same ↦ inl (==-true same)
        | inr (wild, suffix, dots) ↦ inr (wild, covers_sound domain h suffix dots)
      ],
      λ c. elim c [
        | inl same ↦ b (inl (rw same (eq_refl h)))
        | inr (wild, label) ↦
            let (suffix, dots) = covers_complete domain h label in b (inr (wild, suffix, dots))
      ],
    )
