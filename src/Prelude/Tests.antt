-- ===== src/Prelude/Tests.antt =====
-- Boolean tests, the conditional, and splits on a computed value.
use Prim.Native.Nat.{ℕ, zero, suc, ◌<◌, compare, Ordering}
use Prim.Native.String.{String}
use mathlib.Core.Path.{◌≡◌, refl}
use mathlib.Core.Logic.{◌≢◌, ◌⊎◌, inl, inr}
use mathlib.Core.Bool.{decide, Bool, true, false, ◌&&◌}
use mathlib.Core.Option.{Option, none, some}
use native.Mathlib.Omega.{arith}
use text.Mathlib.Text.{◌==◌}
use text.Mathlib.TextEquality.{eq_iff}

abbrev pub ltb : ℕ → ℕ → Bool
ltb a b = elim (compare a b) [ Ordering.lt ↦ true | _ ↦ false ]

abbrev pub leb : ℕ → ℕ → Bool
leb a b = elim (compare a b) [ Ordering.gt ↦ false | _ ↦ true ]

-- The equality test of numbers; `==` is that of texts.
abbrev pub eqb : ℕ → ℕ → Bool
eqb a b = elim (compare a b) [ Ordering.eq ↦ true | _ ↦ false ]

infix 1 if◌then◌else◌
abbrev pub if◌then◌else◌ {ℓ} : {A : Type ℓ} → Bool → A → A → A
if true then x else y = x
if false then x else y = y

pub Bool-cases : (b : Bool) → (b ≡ true) ⊎ (b ≡ false)
Bool-cases true = inl refl
Bool-cases false = inr refl

pub Option-cases {ℓ} : {A : Type ℓ} (o : Option A) → (o ≡ none) ⊎ ((a : A) × (o ≡ some a))
Option-cases none = inl refl
Option-cases (some a) = inr (a, refl)

abbrev pub is_some {ℓ} : {A : Type ℓ} → Option A → Bool
is_some none = false
is_some (some _) = true

pub ==-true : {s t : String} → (s == t) ≡ true → s ≡ t
==-true {s} {t} h = (eq_iff s t).0 h

pub ==-false : {s t : String} → (s == t) ≡ false → s ≢ t
==-false {s} {t} h = ground (arith, eq_iff s t)

pub ne-== : {s t : String} → s ≢ t → (s == t) ≡ false
ne-== {s} {t} h = ground (arith, eq_iff s t)

clash : false ≢ true
clash h = cc

pub decide-true : {A : Type 0} (d : Dec A) → decide d ≡ true → A
unfolding decide
decide-true (yes a) h = a
decide-true (no n) h = absurd (clash h)

pub decide_self : {A : Type 0} (d : Dec A) → A → decide d ≡ true
unfolding decide
decide_self (yes a) x = refl
decide_self (no n) x = absurd (n x)

-- A test of all numbers under a bound, by evaluation.
unfoldable pub all_below : (ℕ → Bool) → ℕ → Bool
all_below test zero = true
all_below test (suc bound) = let rest = all_below test bound in test bound && rest

pub all_below_sound :
    (test : ℕ → Bool) (bound n : ℕ) → n < bound → all_below test bound ≡ true → test n ≡ true
unfolding all_below
all_below_sound test zero n less passed = absurd (omega arith)
all_below_sound test (suc bound) n less passed = ground (arith, all_below_sound test bound n)
