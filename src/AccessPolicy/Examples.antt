-- ===== src/AccessPolicy/Examples.antt =====
-- The theorems on internal/accesspolicy/policy.go at a policy with two mappings.
use showroom_msp_chat_ui.AccessPolicy.Samples.{
  slashless, parse_origin, first_source, later_source, second_entry, policy, decoder, object,
}
use showroom_msp_chat_ui.Prelude.{◌≡◌, refl, ◌≢◌, some, arith, Listed}
use showroom_msp_chat_ui.HostnamePolicy.{hex_run}
use showroom_msp_chat_ui.AccessPolicy.{
  parse, select, path, validate_source, decode, select_from, https_url, check_entries, check_entry,
  validate_entry, is_pinned,
}
use showroom_msp_chat_ui.AccessPolicy.Parsing.{IsAccepted, parse_access_iff}
use showroom_msp_chat_ui.AccessPolicy.Selecting.{
  IsMatch, select_access_iff, IsSlashFree, path-injective,
}
use showroom_msp_chat_ui.Text.{has_char, trim_space, contains_any}
use showroom_msp_chat_ui.Errors.{ok}

policy-parsed : parse slashless parse_origin decoder (ok "{}") ≡ ok policy
unfolding parse decode https_url check_entries check_entry validate_entry validate_source has_char
    contains_any trim_space is_pinned hex_run
policy-parsed = refl

parse_access_iff_example : IsAccepted slashless parse_origin decoder (ok "{}") policy
parse_access_iff_example =
    (parse_access_iff slashless parse_origin decoder (ok "{}") policy).0 policy-parsed

second_entry-selected : select (some policy) object ≡ ok second_entry
unfolding select select_from
second_entry-selected = refl

select_access_iff_example :
    (object.uid ≢ "") × Listed second_entry policy.entries × IsMatch second_entry object
select_access_iff_example =
    (select_access_iff slashless parse_origin decoder (ok "{}") policy object second_entry
        policy-parsed).0
      second_entry-selected

slashless-IsSlashFree : IsSlashFree slashless parse_origin
slashless-IsSlashFree = record { label = λ s h. ground arith; subdomain = λ s h. ground arith }

first_source-valid : validate_source slashless parse_origin first_source ≡ ok tt
unfolding validate_source has_char trim_space
first_source-valid = refl

later_source-valid : validate_source slashless parse_origin later_source ≡ ok tt
unfolding validate_source has_char trim_space
later_source-valid = refl

path-injective_example :
    (first_source.cluster ≡ later_source.cluster)
    × (first_source.namespace ≡ later_source.namespace)
    × (first_source.name ≡ later_source.name)
unfolding path
path-injective_example =
    path-injective slashless parse_origin first_source later_source slashless-IsSlashFree
      first_source-valid later_source-valid refl
