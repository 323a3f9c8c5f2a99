-- ===== src/Text.antt =====
-- What the operator takes from Go's packages strings and path, on texts as lists of characters.
-- Go's functions work on bytes; on ASCII text, which is all that the operator's own constants and
-- every valid DNS name hold, the two agree. `lower` leaves characters outside ASCII as they are.
mod Laws
pub mod Slashes
use Prim.Native.String.{[], ◌∷◌, ◌++◌}
use mathlib.Core.List.{reverse, [], ◌∷◌}
use showroom_msp_chat_ui.Prelude.{
  ℕ, zero, suc, ◌+◌, ◌-◌, Char, code, String, Bool, true, false, ◌&&◌, ◌||◌, List, ◌==◌, leb, eqb,
  if◌then◌else◌,
}

-- strings.HasPrefix(s, prefix)
unfoldable pub has_prefix : String → String → Bool
has_prefix s [] = true
has_prefix [] (p ∷ ps) = false
has_prefix (c ∷ s) (p ∷ ps) = eqb (code c) (code p) && has_prefix s ps

-- strings.HasSuffix(s, suffix)
unfoldable pub has_suffix : String → String → Bool
has_suffix [] t = "" == t
has_suffix (c ∷ s) t = (c ∷ s) == t || has_suffix s t

-- s[n:]
unfoldable pub drop : ℕ → String → String
drop zero s = s
drop (suc n) [] = []
drop (suc n) (c ∷ s) = drop n s

-- strings.Count(s, sep), for a separator of one character, given by its number
unfoldable pub count_char : ℕ → String → ℕ
count_char sep [] = 0
count_char sep (c ∷ s) = (if eqb (code c) sep then 1 else 0) + count_char sep s

unfoldable pub has_char : ℕ → String → Bool
has_char sep [] = false
has_char sep (c ∷ s) = eqb (code c) sep || has_char sep s

-- strings.ContainsAny(s, chars)
unfoldable pub contains_any : String → String → Bool
unfolding has_char
contains_any [] chars = false
contains_any (c ∷ s) chars = has_char (code c) chars || contains_any s chars

-- The character at a place of a text.
unfoldable pub pick : String → Char → ℕ → Char
pick [] d n = d
pick (c ∷ s) d zero = c
pick (c ∷ s) d (suc n) = pick s d n

abbrev pub is_upper : Char → Bool
is_upper c = leb b'A' (code c) && leb (code c) b'Z'

-- unicode.ToLower, on ASCII
unfoldable pub lower_char : Char → Char
unfolding pick
lower_char c = if is_upper c then pick "abcdefghijklmnopqrstuvwxyz" c (code c - b'A') else c

-- strings.ToLower
unfoldable pub lower : String → String
unfolding lower_char
lower [] = []
lower (c ∷ s) = lower_char c ∷ lower s

-- The simple case folding of a character as far as it reaches ASCII: U+017F folds to s and U+212A
-- to k, as unicode.SimpleFold has it.
unfoldable pub fold_char : Char → ℕ
unfolding lower_char
fold_char c =
    if eqb (code c) 383 then b's' else if eqb (code c) 8490 then b'k' else code (lower_char c)

-- strings.EqualFold(s, t), for a text t of ASCII letters and digits
unfoldable pub equal_fold : String → String → Bool
unfolding fold_char
equal_fold [] [] = true
equal_fold [] (d ∷ t) = false
equal_fold (c ∷ s) [] = false
equal_fold (c ∷ s) (d ∷ t) = eqb (fold_char c) (fold_char d) && equal_fold s t

-- unicode.IsSpace
unfoldable pub is_space : Char → Bool
is_space c =
    let n = code c in
    (leb 9 n && leb n 13)
    || eqb n 32
    || eqb n 133
    || eqb n 160
    || eqb n 5760
    || (leb 8192 n && leb n 8202)
    || eqb n 8232
    || eqb n 8233
    || eqb n 8239
    || eqb n 8287
    || eqb n 12288

unfoldable pub trim_left : String → String
unfolding is_space
trim_left [] = []
trim_left (c ∷ s) = if is_space c then trim_left s else c ∷ s

unfoldable pub trim_right : String → String
unfolding is_space
trim_right [] = []
trim_right (c ∷ s) = let rest = trim_right s in if rest == "" && is_space c then "" else c ∷ rest

-- strings.TrimSpace
unfoldable pub trim_space : String → String
unfolding trim_left trim_right
trim_space s = trim_right (trim_left s)

abbrev pub push_head : Char → List String → List String
push_head c [] = (c ∷ []) ∷ []
push_head c (s ∷ ss) = (c ∷ s) ∷ ss

-- strings.Split(s, sep), for a separator of one character
unfoldable pub split : ℕ → String → List String
split sep [] = "" ∷ []
split sep (c ∷ s) =
    let rest = split sep s in if eqb (code c) sep then "" ∷ rest else push_head c rest

-- strings.Repeat
unfoldable pub repeat : String → ℕ → String
repeat s zero = ""
repeat s (suc n) = s ++ repeat s n

-- ".." leaves the last directory; above the root it stays there, and above a relative path it is kept.
unfoldable pub climb : Bool → List String → List String
climb rooted [] = if rooted then [] else ".." ∷ []
climb rooted (top ∷ below) = if top == ".." then ".." ∷ top ∷ below else below

-- One round of path.Clean, over the parts between slashes; the stack has its top at the head.
unfoldable pub resolve : Bool → List String → String → List String
unfolding climb
resolve rooted stack part =
    if part == "" || part == "."
    then stack
    else if part == ".."
    then climb rooted stack
    else part ∷ stack

unfoldable pub resolve_all : Bool → List String → List String → List String
unfolding resolve
resolve_all rooted stack [] = reverse stack
resolve_all rooted stack (part ∷ parts) = resolve_all rooted (resolve rooted stack part) parts

-- strings.Join(parts, "/")
unfoldable pub join_slash : List String → String
join_slash [] = ""
join_slash (s ∷ []) = s
join_slash (s ∷ t ∷ ss) = s ++ "/" ++ join_slash (t ∷ ss)

-- path.Clean
unfoldable pub clean : String → String
unfolding resolve_all join_slash split has_prefix
clean path =
    let rooted = has_prefix path "/" in
    let parts = resolve_all rooted [] (split b'/' path) in
    if rooted
    then "/" ++ join_slash parts
    else if join_slash parts == ""
    then "."
    else join_slash parts
