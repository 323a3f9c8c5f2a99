-- ===== src/HostnamePolicy/Samples.antt =====
-- A policy with one legacy and one derived entry, and a library to run
-- internal/hostnamepolicy/policy.go with.
use showroom_msp_chat_ui.Prelude.{
  ℕ, zero, suc, ◌%◌, ◌<◌, String, refl, true, not, some, List, [], ◌∷◌, arith, All,
}
use Prim.Native.String.{len}
use showroom_msp_chat_ui.HostnamePolicy.{
  Validation, Entry, Policy, Json, Object, Selection, Configuration, derived_slug,
}
use showroom_msp_chat_ui.Text.{has_char}
use showroom_msp_chat_ui.HostnamePolicy.Publishing.{IsDnsCheck, reserved-no_dot}
use showroom_msp_chat_ui.HostnamePolicy.Names.{IsDigest}
use showroom_msp_chat_ui.Errors.{ok}

abbrev pub checks : Validation
checks = record { is_label = λ s. not (has_char b'.' s); is_subdomain = λ s. true }

pub checks-IsDnsCheck : IsDnsCheck checks
checks-IsDnsCheck = record {
  label = λ a b p q. rw (reserved-no_dot a p, reserved-no_dot b q) refl;
  subdomain = λ a b t p q. refl;
}

abbrev pub fill : ℕ → ℕ → List ℕ
fill zero b = []
fill (suc n) b = b ∷ fill n b

All-fill : (n b : ℕ) → b < 256 → All (λ x. x < 256) (fill n b)
All-fill zero b h = tt
All-fill (suc n) b h = (h, All-fill n b h)

-- a digest that tells texts of different lengths apart
abbrev pub digest : String → List ℕ
digest s = fill 32 (len s % 256)

pub digest-IsDigest : IsDigest digest
digest-IsDigest = record { size = λ s. refl; bytes = λ s. All-fill 32 (len s % 256) (omega arith) }

abbrev pub old_entry : Entry
old_entry = record { uid = "u1"; namespace = "team"; name = "chat"; mode = "legacy"; slug = "old" }

abbrev pub new_entry : Entry
new_entry = record { uid = "u22"; namespace = "team"; name = "next"; mode = "derive"; slug = "" }

abbrev pub configuration : Configuration
configuration = record { cutover = "2024"; entries = old_entry ∷ new_entry ∷ [] }

abbrev pub json : Json
json = record { decode = λ s. ok configuration; is_single = λ s. true; parse_time = λ s. some 2024 }

abbrev pub policy : Policy
policy = record { cutover = 2024; entries = ("u1", old_entry) ∷ ("u22", new_entry) ∷ [] }

abbrev pub old_object : Object
old_object = record { uid = "u1"; namespace = "team"; name = "chat"; created = 2000 }

abbrev pub new_object : Object
new_object = record { uid = "u22"; namespace = "team"; name = "next"; created = 2000 }

abbrev pub old_selection : Selection
old_selection = record { slug = "old"; source = "Legacy" }

abbrev pub new_selection : Selection
new_selection = record { slug = derived_slug digest "u22"; source = "Derived" }
