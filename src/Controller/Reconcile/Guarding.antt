-- ===== src/Controller/Reconcile/Guarding.antt =====
-- Everything that Reconcile ever writes of a workload and its route.
use showroom_msp_chat_ui.Prelude.{String, All, All-append, All-mono}
use showroom_msp_chat_ui.Controller.Setup.{Kit, Reconciler}
use showroom_msp_chat_ui.Controller.Effects.{Api, Run}
use showroom_msp_chat_ui.Controller.Effects.Logs.{Logs, Added, logs, Logs-All}
use showroom_msp_chat_ui.Controller.Effects.Keeping.{Keeps}
use showroom_msp_chat_ui.Controller.Objects.{Key}
use showroom_msp_chat_ui.Controller.Reconcile.Publishing.{
  IsGuarded, Guarded, Published, published-IsGuarded, readiness-Logs, report_readiness-Logs,
}
use showroom_msp_chat_ui.Controller.Reconcile.{ingress_done, reconcile}
use showroom_msp_chat_ui.Errors.{ok}
use showroom_msp_chat_ui.Controller.Reconcile.Walking.{reconcile-Keeps}

module _ (k : Kit) (api : Api) (r : Reconciler) where
  grows :
      (s t : Run)
      → Added (Published k api r) s.log t.log
      → All (Guarded k api r) s.log
      → All (Guarded k api r) t.log
  grows s t a h = rw a.same (
      All-append (Guarded k api r) a.writes s.log
        (All-mono _ _ (published-IsGuarded r.access_policy.proxy_image) a.writes a.all) h)

  report-Logs : (host : String) → Logs (Guarded k api r) (ingress_done k api r host (ok tt))
  report-Logs host = search (logs, readiness-Logs k api r, report_readiness-Logs k api r)

  report-Keeps :
      (host : String)
      → Keeps (λ (s : Run). All (Guarded k api r) s.log) (ingress_done k api r host (ok tt))
  report-Keeps host = record { kept = λ s h. Logs-All _ (report-Logs host) s h }

  -- Whatever the API server answers, a run of Reconcile keeps a log of guarded writes one. Each
  -- Deployment is scaled to zero, or its pods have exactly three containers: the application of the
  -- supported image, which listens on 127.0.0.1 alone and opens no port, the access gate of the
  -- configured image, and OAuth2 Proxy of the pinned image with the arguments for one public URL; all
  -- three confined, without init containers, without a service account token and without the node's
  -- namespaces. Each Ingress has exactly the one rule that sends the whole of one host to port 8080
  -- of one Service, no default backend and the class traefik. Each Service has the type ClusterIP,
  -- named or by default, no external name and exactly that port; one that is created has no external
  -- IPs, and of those of one that is updated nothing is said.
  pub reconcile-IsGuarded :
      (key : Key) (s : Run)
      → All (IsGuarded r.access_policy.proxy_image) s.log
      → All (IsGuarded r.access_policy.proxy_image) (reconcile k api r key s).1.log
  reconcile-IsGuarded key s h = (reconcile-Keeps k api r grows report-Keeps key).kept s h
