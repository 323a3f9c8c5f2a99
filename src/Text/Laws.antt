-- ===== src/Text/Laws.antt =====
-- Runs of the functions of Text on texts whose result can be read off the Go documentation.
use showroom_msp_chat_ui.Prelude.{◌≡◌, refl, true, [], ◌∷◌}
use showroom_msp_chat_ui.Text.{lower, trim_space, split, clean, equal_fold}

lower_test : lower "Chat.Example-09" ≡ "chat.example-09"
unfolding lower
lower_test = refl

trim_test : trim_space "  a b  " ≡ "a b"
unfolding trim_space
trim_test = refl

split_test : split b'.' "a.b..c" ≡ "a" ∷ "b" ∷ "" ∷ "c" ∷ []
unfolding split
split_test = refl

clean_test :
    (clean "/api//v1/./x/../auths/" ≡ "/api/v1/auths")
    × (clean "" ≡ ".")
    × (clean "/.." ≡ "/")
    × (clean "a/../../b" ≡ "../b")
unfolding clean
clean_test = (refl, refl, refl, refl)

fold_test : equal_fold "UpGrade" "upgrade" ≡ true
unfolding equal_fold
fold_test = refl
