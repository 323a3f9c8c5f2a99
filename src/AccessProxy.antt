-- ===== src/AccessProxy.antt =====
-- cmd/access-proxy/main.go: the process that serves the access gate.
pub mod Running
mod Examples
use showroom_msp_chat_ui.Prelude.{ℕ, String, Option, none, some, List, [], ◌∷◌, ◌==◌, if◌then◌else◌}
use showroom_msp_chat_ui.HostnamePolicy.{Validation}
use showroom_msp_chat_ui.AccessPolicy.{Decoder, Url, decode}
use showroom_msp_chat_ui.AccessGate.{Config, Gate, TrustStore, new_gate}
use showroom_msp_chat_ui.Errors.{Result, Error, ok, err, message, ◌>>=◌, ◌>>◌}

-- the two handlers: the gate itself, and its Health
pub data Handler : Type 0 where
  serves : Gate → Handler
  reports_health : Gate → Handler

-- http.Server, with seconds and bytes; a timeout of 0 is none.
pub record Server : Type 0 where
  pub addr : String
  pub handler : Handler
  pub read_header_timeout : ℕ
  pub read_timeout : ℕ
  pub write_timeout : ℕ
  pub idle_timeout : ℕ
  pub max_header_bytes : ℕ

abbrev pub proxy_server : Gate → Server
proxy_server gate = record {
  addr = "127.0.0.1:8082";
  handler = serves gate;
  read_header_timeout = 5;
  read_timeout = 65;
  write_timeout = 0;
  idle_timeout = 30;
  max_header_bytes = 98304;
}

abbrev pub health_server : Gate → Server
health_server gate = record {
  addr = "0.0.0.0:8083";
  handler = reports_health gate;
  read_header_timeout = 3;
  read_timeout = 5;
  write_timeout = 5;
  idle_timeout = 5;
  max_header_bytes = 4096;
}

-- What ends the select: a signal, or the first error of a server, which is that it was closed, or
-- another.
pub data Ending : Type 0 where
  signalled : Ending
  closed : Ending
  server_failed : Error → Ending

-- The servers that listened, and the error that is returned.
pub record Outcome : Type 0 where
  pub servers : List Server
  pub error : Option Error

-- Everything that run is given: the file's content and how the servers end are the system's.
pub record Process : Type 0 where
  pub validation : Validation
  pub parse_url : String → Option Url
  pub store : TrustStore
  pub decoder : Decoder Config
  pub files : String → Result (Result String)
  pub ending : Ending

abbrev pub open_configuration : Result (Result String) → Result (Result String)
open_configuration (ok read) = ok read
open_configuration (err _) = err (message "access configuration cannot be opened")

-- the upstream of accessgate.New
abbrev pub upstream : String
upstream = "http://127.0.0.1:8081"

module _ (p : Process) where
  -- up to the gate
  unfoldable pub prepare : String → Result Gate
  prepare path = if path == "" then err (message "--config is required") else (do
    read ← open_configuration (p.files path)
    config ← decode p.decoder read
    new_gate p.validation p.parse_url p.store config upstream)

  abbrev pub returned : Ending → Option Error
  returned signalled = none
  returned closed = none
  returned (server_failed e) = some e

  abbrev pub serve_until_end : Result Gate → Outcome
  serve_until_end (err e) = record { servers = []; error = some e }
  serve_until_end (ok gate) = record {
    servers = proxy_server gate ∷ health_server gate ∷ [];
    error = returned p.ending;
  }

  unfoldable pub run : String → Outcome
  unfolding prepare
  run path = serve_until_end (prepare path)
