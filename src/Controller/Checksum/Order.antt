-- ===== src/Controller/Checksum/Order.antt =====
-- The order of texts: total, antisymmetric and transitive.
use Prim.Native.String.compare
use showroom_msp_chat_ui.Prelude.{ℕ, code, String, ◌≡◌, refl, ◌≢◌, true, false, [], ◌∷◌, arith}
use Prim.Native.Nat.{Ordering, compare as compare_ℕ}
use Prim.Native.String.{[], ◌∷◌, compare, then}
use text.Mathlib.TextEquality.{path_by_compare}
use showroom_msp_chat_ui.Controller.Checksum.{at_most}

abbrev flip : Ordering → Ordering
flip Ordering.lt = Ordering.gt
flip Ordering.eq = Ordering.eq
flip Ordering.gt = Ordering.lt

flip-then : (m n : ℕ) (o : Ordering) → then (compare_ℕ n m) (flip o) ≡ flip (then (compare_ℕ m n) o)
flip-then m n o = ground arith

compare-flip : (a b : String) → compare b a ≡ flip (compare a b)
compare-flip [] [] = rw compare.nil-nil refl
compare-flip [] (d ∷ b) = rw (compare.nil-cons d b, compare.cons-nil d b) refl
compare-flip (c ∷ a) [] = rw (compare.nil-cons c a, compare.cons-nil c a) refl
compare-flip (c ∷ a) (d ∷ b) =
    rw (compare.cons-cons c d a b, compare.cons-cons d c b a, compare-flip a b)
      (flip-then (code c) (code d) (compare a b))

pub at_most_total : (a b : String) → at_most a b ≡ false → at_most b a ≡ true
at_most_total a b h = ground (arith, compare-flip a b)

pub at_most_antisym : (a b : String) → at_most a b ≡ true → at_most b a ≡ true → a ≡ b
at_most_antisym a b p q = path_by_compare a b (ground (arith, compare-flip a b))

then_trans :
    (m n l : ℕ) (o o' o'' : Ordering)
    → then (compare_ℕ m n) o ≢ Ordering.gt
    → then (compare_ℕ n l) o' ≢ Ordering.gt
    → (o ≢ Ordering.gt → o' ≢ Ordering.gt → o'' ≢ Ordering.gt)
    → then (compare_ℕ m l) o'' ≢ Ordering.gt
then_trans m n l o o' o'' p q r = ground arith

compare_trans :
    (a b c : String)
    → compare a b ≢ Ordering.gt
    → compare b c ≢ Ordering.gt
    → compare a c ≢ Ordering.gt
compare_trans [] b [] p q = rw compare.nil-nil (λ e. cc)
compare_trans [] b (z ∷ c) p q = rw (compare.nil-cons z c) (λ e. cc)
compare_trans (x ∷ a) [] c p q = absurd (p (compare.cons-nil x a))
compare_trans (x ∷ a) (y ∷ b) [] p q = absurd (q (compare.cons-nil y b))
compare_trans (x ∷ a) (y ∷ b) (z ∷ c) p q = rw (compare.cons-cons x z a c) (
    then_trans (code x) (code y) (code z) (compare a b) (compare b c) (compare a c)
      (rw (compare.cons-cons x y a b) at p) (rw (compare.cons-cons y z b c) at q)
      (compare_trans a b c))

pub at_most_trans : (a b c : String) → at_most a b ≡ true → at_most b c ≡ true → at_most a c ≡ true
at_most_trans a b c p q = ground (arith, compare_trans a b c)
