-- ===== src/AccessProxy/Examples.antt =====
-- The theorem on cmd/access-proxy/main.go at one configuration.
use showroom_msp_chat_ui.Prelude.{◌≡◌, ◌↔◌, true, none, some, All}
use showroom_msp_chat_ui.AccessPolicy.Samples.{slashless, parse_origin, first_source}
use showroom_msp_chat_ui.AccessProxy.{Process, run, prepare, signalled}
use showroom_msp_chat_ui.AccessProxy.Running.{IsSafe, EndsWell, run_exposure}
use showroom_msp_chat_ui.AccessGate.{Gate}
use showroom_msp_chat_ui.Errors.{ok}

abbrev process : Process
process = record {
  validation = slashless;
  parse_url = parse_origin;
  store = record { has_certificates = λ s. true; system = true };
  decoder = record {
    first = λ s. some (record {
      kcp_server = "https://kcp.example.org";
      kcp_ca = "";
      public_url = "https://ui.example.org";
      issuer = "https://id.example.org";
      client_id = "client";
      source = first_source;
    });
    is_single = λ s. true;
  };
  files = λ path. ok (ok "{}");
  ending = signalled;
}

run_exposure_example :
    All (IsSafe process "/etc/gate.json") (run process "/etc/gate.json").servers
    × (((run process "/etc/gate.json").error ≡ none) ↔ (
        ((gate : Gate) × (prepare process "/etc/gate.json" ≡ ok gate))
        × EndsWell process "/etc/gate.json" signalled))
run_exposure_example = run_exposure process "/etc/gate.json"
