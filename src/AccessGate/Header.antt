-- ===== src/AccessGate/Header.antt =====
-- net/http's Header, and stripIdentity: a map from canonical names to values.
use showroom_msp_chat_ui.Prelude.{
  ℕ, ◌-◌, Char, code, String, ◌≡◌, refl, Bool, true, ◌&&◌, ◌||◌, none, some, List, [], ◌∷◌, ◌==◌,
  leb, eqb, if◌then◌else◌,
}
use Prim.Native.String.{[], ◌∷◌}
use showroom_msp_chat_ui.Text.{has_prefix, has_char, lower, pick, lower_char}
use showroom_msp_chat_ui.Dictionary.{Map, lookup, insert, remove}
use showroom_msp_chat_ui.AccessGate.{token_header}

abbrev pub Header : Type 0
Header = Map (List String)

abbrev is_letter_or_digit : ℕ → Bool
is_letter_or_digit n =
    (leb b'a' n && leb n b'z') || (leb b'A' n && leb n b'Z') || (leb b'0' n && leb n b'9')

-- the characters of a header name: letters, digits and !#$%&'*+-.^_`|~
unfoldable pub is_token : String → Bool
unfolding has_char
is_token [] = true
is_token (c ∷ s) =
    (is_letter_or_digit (code c) || has_char (code c) "!#$%&'*+-.^_`|~") && is_token s

unfoldable pub upper_char : Char → Char
unfolding pick
upper_char c =
    if leb b'a' (code c) && leb (code c) b'z'
    then pick "ABCDEFGHIJKLMNOPQRSTUVWXYZ" c (code c - b'a')
    else c

-- An upper-case letter first and behind each dash, else lower case.
unfoldable pub capitalise : Bool → String → String
unfolding upper_char lower_char
capitalise start [] = []
capitalise start (c ∷ s) =
    (if start then upper_char c else lower_char c) ∷ capitalise (eqb (code c) b'-') s

-- textproto.CanonicalMIMEHeaderKey
unfoldable pub canonical : String → String
unfolding is_token capitalise
canonical name = if is_token name then capitalise true name else name

abbrev pub values : String → Header → List String
values name h = elim (lookup (canonical name) h) [ none ↦ [] | some vs ↦ vs ]

abbrev pub first_value : List String → String
first_value [] = ""
first_value (s ∷ _) = s

abbrev pub get : String → Header → String
get name h = first_value (values name h)

abbrev pub set_header : String → String → Header → Header
set_header name value h = insert (canonical name) (value ∷ []) h

abbrev pub delete : String → Header → Header
delete name h = remove (canonical name) h

-- the test of stripIdentity, on a name
unfoldable pub is_identity : String → Bool
unfolding lower has_char has_prefix
is_identity name =
    let n = lower name in
    has_char b'_' n
    || has_prefix n "x-chatui-"
    || has_prefix n "x-forwarded-"
    || has_prefix n "x-auth-"
    || has_prefix n "x-remote-"
    || has_prefix n "impersonate-"
    || n == "forwarded"
    || n == "x-api-key"

-- the loop of stripIdentity over the names that the map had
unfoldable pub strip_names : Header → Header → Header
strip_names [] h = h
strip_names ((name, _) ∷ names) h =
    strip_names names (if is_identity name then delete name h else h)

unfoldable pub strip_identity : Header → Header
unfolding strip_names
strip_identity h = strip_names h h

canonical_test : (canonical token_header ≡ "X-Chatui-Oidc-Token") × (canonical "a b" ≡ "a b")
unfolding canonical
canonical_test = (refl, refl)

strip_test :
    strip_identity (("X-Auth-User", "a" ∷ []) ∷ ("Accept", "b" ∷ []) ∷ ("X_y", []) ∷ [])
    ≡ ("Accept", "b" ∷ []) ∷ []
unfolding strip_identity is_identity canonical remove
strip_test = refl
