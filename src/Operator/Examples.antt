-- ===== src/Operator/Examples.antt =====
-- The theorems on cmd/main.go at one configuration.
use showroom_msp_chat_ui.HostnamePolicy
use showroom_msp_chat_ui.AccessPolicy
use showroom_msp_chat_ui.Prelude.{String, ◌≡◌, refl, none, some, [], ◌∷◌}
use showroom_msp_chat_ui.HostnamePolicy.Samples.{checks, digest, json, old_object, old_selection}
use showroom_msp_chat_ui.HostnamePolicy.{host, select, is_reserved, validate_public_host, hex_run}
use showroom_msp_chat_ui.AccessPolicy.Samples.{parse_origin, decoder}
use showroom_msp_chat_ui.Controller.Setup.{Reconciler}
use showroom_msp_chat_ui.Operator.{
  Host, main, stopped, proposal, load_hostname_policy, load_access_policy, public_host,
  public_scheme, tls_secret_name, extra_annotations,
}
use showroom_msp_chat_ui.Operator.Starting.{IsPrepared, main-IsPrepared}
use showroom_msp_chat_ui.Operator.Labels.{
  ensure_labels, ensure_labels-lookup, base_labels, first_label, or_else,
}
use showroom_msp_chat_ui.Errors.{ok}
use showroom_msp_chat_ui.Dictionary.{lookup, insert}
use showroom_msp_chat_ui.Controller.Watch.{setup_with_manager}
use showroom_msp_chat_ui.Text.{has_char, trim_space, split, repeat, contains_any}
use showroom_msp_chat_ui.AccessProxy.{prepare}

abbrev this_host : Host String
this_host = record {
  validation = checks;
  json = json;
  parse_url = parse_origin;
  decoder = decoder;
  codec = record { unmarshal = λ s. none; marshal = λ v. some v };
  files = λ path. ok (ok "{}");
  flags = record {
    public_scheme = "https";
    ingress_extra_annotations = "";
    tls_secret_name = "";
    hostname_policy_file = "/etc/hostnames.json";
    access_policy_file = "/etc/access.json";
  };
  env = record {
    public_host = "example.org";
    public_scheme = "http";
    ingress_extra_annotations = "";
    tls_secret_name = "wildcard";
  };
  manager = record {
    make = ok tt;
    register = ok tt;
    add_healthz = ok tt;
    add_readyz = ok tt;
    run = ok tt;
  };
}

abbrev running : Reconciler
running = record {
  hostname_policy = HostnamePolicy.Samples.policy;
  access_policy = AccessPolicy.Samples.policy;
  public_host = "example.org";
  public_scheme = "https";
  extra_ingress_annotations = [];
  tls_secret_name = "wildcard";
}

host-stopped : main this_host ≡ stopped running
unfolding main load_hostname_policy load_access_policy proposal setup_with_manager
    HostnamePolicy.parse HostnamePolicy.load_entries HostnamePolicy.load_entry has_char trim_space
    is_reserved insert lookup validate_public_host host HostnamePolicy.check_labels split repeat
    AccessPolicy.parse AccessPolicy.decode AccessPolicy.https_url AccessPolicy.check_entries
    AccessPolicy.check_entry AccessPolicy.validate_entry AccessPolicy.validate_source contains_any
    AccessPolicy.is_pinned hex_run public_host public_scheme tls_secret_name extra_annotations
    prepare
host-stopped = refl

prepared_example : IsPrepared this_host running
prepared_example = main-IsPrepared this_host running host-stopped

old_object-selected : select digest (some running.hostname_policy) old_object ≡ ok old_selection
unfolding select lookup
old_object-selected = refl

labels_example :
    lookup "app.kubernetes.io/name"
      (ensure_labels (base_labels "1.2") (("app.kubernetes.io/name", "open-webui") ∷ []))
    ≡ or_else
        (lookup "app.kubernetes.io/name" (("app.kubernetes.io/name", "open-webui") ∷ []))
        (first_label "app.kubernetes.io/name" (base_labels "1.2"))
labels_example =
    ensure_labels-lookup (base_labels "1.2") (("app.kubernetes.io/name", "open-webui") ∷ [])
      "app.kubernetes.io/name"
