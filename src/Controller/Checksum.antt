-- ===== src/Controller/Checksum.antt =====
-- computeSecretChecksum of chatuiinstance_controller.go: the checksum that rolls the pods when the
-- backend's credentials change.
pub mod Order
pub mod Sorting
mod Examples
use showroom_msp_chat_ui.Prelude.{
  Bool, true, false, ℕ, zero, suc, String, List, [], ◌∷◌, map, eqb, if◌then◌else◌, length,
}
use Prim.Native.String.{[], ◌∷◌, ◌++◌, compare}
use Prim.Native.Nat.{Ordering}
use showroom_msp_chat_ui.Controller.Objects.{Secret}
use showroom_msp_chat_ui.Dictionary.{lookup, Map, value_of}
use showroom_msp_chat_ui.HostnamePolicy.{hex}

abbrev pub at_most : String → String → Bool
at_most a b = elim (compare a b) [ Ordering.gt ↦ false | _ ↦ true ]

-- sort.Strings
unfoldable pub insert_sorted : String → List String → List String
insert_sorted key [] = key ∷ []
insert_sorted key (first ∷ rest) =
    let later = insert_sorted key rest in
    if at_most key first then key ∷ first ∷ rest else first ∷ later

unfoldable pub sort_strings : List String → List String
unfolding insert_sorted
sort_strings [] = []
sort_strings (key ∷ keys) = insert_sorted key (sort_strings keys)

-- what the loop over the keys writes into the hash
unfoldable pub hash_input : Map String → List String → String
unfolding lookup
hash_input contents [] = ""
hash_input contents (key ∷ keys) = key ++ (value_of key contents ++ hash_input contents keys)

-- s[:n]
unfoldable pub first_chars : ℕ → String → String
first_chars zero s = []
first_chars (suc n) [] = []
first_chars (suc n) (c ∷ s) = c ∷ first_chars n s

abbrev pub keys_of : Map String → List String
keys_of = map (λ f. f.0)

unfoldable pub compute_secret_checksum : (String → List ℕ) → Secret → String
unfolding sort_strings hash_input hex first_chars
compute_secret_checksum sha256 secret =
    if eqb (length secret.contents) 0
    then ""
    else first_chars 16
        (hex (sha256 (hash_input secret.contents (sort_strings (keys_of secret.contents)))))
