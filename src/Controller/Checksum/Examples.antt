-- ===== src/Controller/Checksum/Examples.antt =====
-- The theorems on computeSecretChecksum at the credentials of one backend.
use showroom_msp_chat_ui.Prelude.{ℕ, ◌%◌, String, ◌≡◌, refl, List, [], ◌∷◌, arith, eq_iff}
use mathlib.Core.List.{Permᴰ}
use Prim.Native.String.{◌++◌, len}
use showroom_msp_chat_ui.Controller.Samples.{bare_meta}
use showroom_msp_chat_ui.Controller.Objects.{Secret}
use showroom_msp_chat_ui.Controller.Checksum.{compute_secret_checksum}
use showroom_msp_chat_ui.Controller.Checksum.Sorting.{
  compute_secret_checksum-perm, compute_secret_checksum-ambiguous, credentials,
}
use showroom_msp_chat_ui.Dictionary.{lookup, value_of}

-- a digest of one byte
abbrev short : String → List ℕ
short s = (len s % 256) ∷ []

abbrev backend : Secret
backend = credentials (bare_meta "backend" "k7") "sk-1" "https://llm.example.org"

-- the same, ranged over from its other key
abbrev backend_again : Secret
backend_again = record backend {
  contents = ("OPENAI_API_URL", "https://llm.example.org") ∷ ("OPENAI_API_KEY", "sk-1") ∷ [];
}

same_values : (key : String) → value_of key backend.contents ≡ value_of key backend_again.contents
unfolding lookup
same_values key = ground (
  arith,
  eq_iff "OPENAI_API_KEY" key,
  eq_iff "OPENAI_API_URL" key,
  eq_iff "OPENAI_API_URL" "OPENAI_API_KEY",
)

perm_example : compute_secret_checksum short backend ≡ compute_secret_checksum short backend_again
perm_example =
    compute_secret_checksum-perm short backend backend_again (Permᴰ.swap refl refl) same_values

ambiguous_example :
    compute_secret_checksum short
      (credentials (bare_meta "backend" "k7") ("sk" ++ ("OPENAI_API_URL" ++ "-1")) "https://a")
    ≡ compute_secret_checksum short
        (credentials (bare_meta "backend" "k7") "sk" ("-1" ++ ("OPENAI_API_URL" ++ "https://a")))
ambiguous_example =
    compute_secret_checksum-ambiguous short (bare_meta "backend" "k7") "sk" "-1" "https://a"
