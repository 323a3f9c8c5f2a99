-- ===== src/HostnamePolicy/Examples.antt =====
-- The theorems on internal/hostnamepolicy/policy.go at a policy with one legacy and one derived entry.
use showroom_msp_chat_ui.HostnamePolicy.Samples.{
  checks, digest, json, policy, old_object, new_object, old_selection, new_selection,
  checks-IsDnsCheck, digest-IsDigest,
}
use showroom_msp_chat_ui.Prelude.{ℕ, ◌≡◌, refl, ◌≢◌, true, some, List, [], ◌∷◌, arith, All, ap}
use Prim.Native.String.{◌++◌}
use showroom_msp_chat_ui.HostnamePolicy.{
  parse, select, host, first, load_entries, is_reserved, validate_public_host, load_entry,
  check_labels,
}
use showroom_msp_chat_ui.HostnamePolicy.Parsing.{IsAccepted, parse_iff}
use showroom_msp_chat_ui.Text.{has_char, trim_space, split, repeat}
use showroom_msp_chat_ui.HostnamePolicy.Publishing.{full_host, validate_public_host-host}
use showroom_msp_chat_ui.HostnamePolicy.Names.{host_iff}
use showroom_msp_chat_ui.Errors.{ok}
use showroom_msp_chat_ui.Dictionary.{lookup, insert}
use showroom_msp_chat_ui.HostnamePolicy.Selecting.{IsSelected, select_iff}
use showroom_msp_chat_ui.HostnamePolicy.Uniqueness.{select_distinct}

policy-parsed : parse checks json (ok "{}") ≡ ok policy
unfolding parse load_entries load_entry has_char trim_space is_reserved insert lookup
policy-parsed = refl

old_object-selected : select digest (some policy) old_object ≡ ok old_selection
unfolding select lookup
old_object-selected = refl

new_object-selected : select digest (some policy) new_object ≡ ok new_selection
unfolding select lookup
new_object-selected = refl

parse_iff_example : IsAccepted checks json (ok "{}") policy
parse_iff_example = (parse_iff checks json (ok "{}") policy).0 policy-parsed

select_iff_example : IsSelected digest policy old_object old_selection
select_iff_example = (select_iff digest policy old_object old_selection).0 old_object-selected

abbrev leading : List ℕ → ℕ
leading [] = 0
leading (b ∷ bs) = b

digests-differ :
    first 16 (digest ("ui.privatellms.msp/slug/v1:" ++ "u1"))
    ≢ first 16 (digest ("ui.privatellms.msp/slug/v1:" ++ "u22"))
unfolding first
digests-differ e = let h : leading (29 ∷ []) ≡ leading (30 ∷ []) = ap leading e in omega arith

uids-differ : old_object.uid ≢ new_object.uid
uids-differ e = cc

select_distinct_example : old_selection.slug ≢ new_selection.slug
select_distinct_example =
    select_distinct checks json (ok "{}") policy digest old_object new_object old_selection
      new_selection policy-parsed digest-IsDigest old_object-selected new_object-selected
      uids-differ digests-differ

host_iff_example :
    ("old.example.org" ≡ "old" ++ ("." ++ trim_space " example.org"))
    × (checks.is_label "old" ≡ true)
    × (checks.is_subdomain "old.example.org" ≡ true)
    × All (λ l. checks.is_label l ≡ true) (split b'.' "old.example.org")
unfolding host check_labels trim_space split has_char
host_iff_example = (host_iff checks " example.org" "old" "old.example.org").0 refl

policy-public : validate_public_host checks policy "example.org" ≡ ok tt
unfolding validate_public_host host check_labels trim_space split has_char repeat
policy-public = refl

publishing_example : host checks "example.org" "old" ≡ ok (full_host checks "example.org" "old")
publishing_example =
    validate_public_host-host checks "example.org" policy digest old_object old_selection
      checks-IsDnsCheck digest-IsDigest policy-public old_object-selected
