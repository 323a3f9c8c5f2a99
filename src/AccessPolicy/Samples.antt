-- ===== src/AccessPolicy/Samples.antt =====
-- A policy with two mappings, and a library to run internal/accesspolicy/policy.go with.
use showroom_msp_chat_ui.Prelude.{String, true, false, not, Option, some, [], ◌∷◌}
use showroom_msp_chat_ui.HostnamePolicy.{Validation, Object}
use showroom_msp_chat_ui.AccessPolicy.{Source, Entry, Policy, Url, Decoder}
use showroom_msp_chat_ui.Text.{has_char}

abbrev pub slashless : Validation
slashless = record {
  is_label = λ s. not (has_char b'/' s);
  is_subdomain = λ s. not (has_char b'/' s);
}

abbrev pub parse_origin : String → Option Url
parse_origin s = some (record {
  scheme = "https";
  hostname = "kcp.example.org";
  host = "kcp.example.org";
  has_user = false;
  raw_query = "";
  fragment = "";
  raw_path = "";
  path = "";
})

abbrev pub first_source : Source
first_source = record { cluster = "c1"; namespace = "team"; name = "chat"; uid = "s1" }

abbrev pub later_source : Source
later_source = record { cluster = "c1"; namespace = "team"; name = "chat"; uid = "s2" }

abbrev pub second_source : Source
second_source = record { cluster = "c2"; namespace = "team"; name = "chat"; uid = "s3" }

abbrev pub first_entry : Entry
first_entry = record {
  uid = "u1";
  namespace = "ns";
  name = "chat";
  source = first_source;
  issuer = "https://id.example.org";
  client_id = "client";
  client_secret_name = "credential";
}

abbrev pub second_entry : Entry
second_entry = record first_entry { uid = "u2"; name = "next"; source = second_source }

abbrev pub policy : Policy
policy = record {
  kcp_server = "https://kcp.example.org";
  kcp_ca = "";
  credentials_namespace = "credentials";
  proxy_image = "proxy@sha256:0123456789abcdef0123456789abcdef0123456789abcdef0123456789abcdef";
  entries = first_entry ∷ second_entry ∷ [];
}

abbrev pub decoder : Decoder Policy
decoder = record { first = λ s. some policy; is_single = λ s. true }

abbrev pub object : Object
object = record { uid = "u2"; namespace = "ns"; name = "next"; created = 2000 }
