-- ===== src/Text/Slashes.antt =====
-- Where a text without slashes ends before a slash.
use showroom_msp_chat_ui.Prelude.{code, String, ◌≡◌, refl, sym, ap, ◌∙◌, false, [], ◌∷◌, arith}
use Prim.Native.String.{[], ◌∷◌, ◌++◌}
use showroom_msp_chat_ui.Text.{has_char}
use text.Mathlib.TextLemmas.{
  cons-append, append_cancel_left, nil-append, head-eq_of_cons-eq, tail-eq_of_cons-eq,
}
use mathlib.Core.Path.{ap₂}

slash_cons : (u : String) → "/" ++ u ≡ "/" ∷ u
slash_cons u = cons-append "/" "" u ∙ ap (λ t. "/" ∷ t) (nil-append u)

-- Where the text before the first slash ends is fixed by the whole.
pub cut :
    (s t u w : String)
    → has_char b'/' s ≡ false
    → has_char b'/' t ≡ false
    → s ++ ("/" ++ u) ≡ t ++ ("/" ++ w)
    → (s ≡ t) × (u ≡ w)
unfolding has_char
cut [] [] u w hs ht e = (refl, append_cancel_left "/" u w (sym (nil-append _) ∙ (e ∙ nil-append _)))
cut [] (d ∷ t) u w hs ht e =
    let heads =
      head-eq_of_cons-eq
        (sym (slash_cons u) ∙ (sym (nil-append ("/" ++ u)) ∙ (e ∙ cons-append d t ("/" ++ w)))) in
    absurd (ground (arith, ap code heads))
cut (c ∷ s) [] u w hs ht e =
    let heads =
      head-eq_of_cons-eq
        (sym (cons-append c s ("/" ++ u)) ∙ (e ∙ (nil-append ("/" ++ w) ∙ slash_cons w))) in
    absurd (ground (arith, ap code heads))
cut (c ∷ s) (d ∷ t) u w hs ht e =
    let same = rw (cons-append c s ("/" ++ u), cons-append d t ("/" ++ w)) at e in
    let (ss, us) = cut s t u w (ground arith) (ground arith) (tail-eq_of_cons-eq same) in
    (ap₂ (λ a b. a ∷ b) (head-eq_of_cons-eq same) ss, us)
