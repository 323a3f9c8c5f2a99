-- ===== src/Controller/Workload/Probes.antt =====
-- chatUIHTTPProbe, probesEqual and ensureChatUIContainerProbes of chatuiinstance_controller.go.
use showroom_msp_chat_ui.Prelude.{
  ℕ, Bool, true, false, ◌&&◌, ◌||◌, not, Option, none, some, ◌==◌, eqb, if◌then◌else◌,
}
use showroom_msp_chat_ui.Controller.Pods.{Probe, HttpGet, Container}
use showroom_msp_chat_ui.Controller.Objects.{Target, number, named}

unfoldable pub chatui_http_probe : ℕ → ℕ → Probe
chatui_http_probe period failures = record {
  http_get = some (record { path = "/"; port = number 8080; scheme = "" });
  exec = none;
  initial_delay_seconds = 0;
  period_seconds = period;
  timeout_seconds = 2;
  success_threshold = 0;
  failure_threshold = failures;
}

-- == of two intstr.IntOrString
abbrev pub same_target : Target → Target → Bool
same_target (number n) (number m) = eqb n m
same_target (named s) (named t) = s == t
same_target _ _ = false

-- the comparison of two GET requests with the timings of their probes; == of pointers is only met
-- where one of the two is nil
abbrev pub same_request : Option HttpGet → Option HttpGet → Bool → Bool
same_request (some a) (some b) timings = a.path == b.path && same_target a.port b.port && timings
same_request none none timings = true
same_request _ _ timings = false

unfoldable pub probes_equal : Option Probe → Option Probe → Bool
probes_equal (some a) (some b) = same_request a.http_get b.http_get (
    eqb a.initial_delay_seconds b.initial_delay_seconds
    && eqb a.period_seconds b.period_seconds
    && eqb a.timeout_seconds b.timeout_seconds
    && eqb a.failure_threshold b.failure_threshold)
probes_equal none none = true
probes_equal _ _ = false

-- one probe, with whether it was set
abbrev pub ensure_probe : Option Probe → Probe → Option Probe × Bool
ensure_probe actual desired =
    if not (probes_equal actual (some desired)) then (some desired, true) else (actual, false)

abbrev pub late_probe : Probe
late_probe = record (chatui_http_probe 10 6) { initial_delay_seconds = 20 }

unfoldable pub ensure_chatui_container_probes : Container → Container × Bool
unfolding probes_equal chatui_http_probe
ensure_chatui_container_probes c =
    let (ready, u) = ensure_probe c.readiness_probe (chatui_http_probe 5 6) in
    let (startup, v) = ensure_probe c.startup_probe (chatui_http_probe 10 60) in
    let (live, w) = ensure_probe c.liveness_probe late_probe in
    (
      record c { readiness_probe = ready; startup_probe = startup; liveness_probe = live },
      u || v || w,
    )
