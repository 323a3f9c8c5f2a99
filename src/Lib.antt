-- ===== src/Lib.antt =====
-- A verification library for the Chat UI operator: the controller that runs one Open WebUI for
-- each ChatUIInstance, and the access gate in front of it. It follows the Go source of the
-- repository, file by file.
--
-- The operator reads two policies at startup. internal/hostnamepolicy says which slug an instance
-- gets, and internal/accesspolicy which identity provider and which source object in KCP guard it.
-- internal/controller reconciles an instance: it checks the image, selects and checks the
-- hostname, prepares the access Secrets, and writes Deployment, Service, Ingress and status; every
-- failed check withdraws the route and stops the workload. internal/accessgate runs beside the
-- application and asks KCP about each request.
--
-- - HostnamePolicy (with Names, Parsing, Selecting, Uniqueness, Publishing):
--   internal/hostnamepolicy/policy.go. `parse`, `select`, `host` and `validate_public_host` are
--   Parse, Select, Host and ValidatePublicHost; `load_entry` is one round of the loop of Parse.
-- - AccessPolicy (with Parsing, Selecting): internal/accesspolicy/policy.go. `decode`,
--   `https_url`, `validate_source`, `parse`, `select` and `path` are its functions.
-- - AccessGate (with Header, Rewrite, Authorize, Serve): internal/accessgate/gate.go. `serve` is
--   ServeHTTP up to the proxy, `watch` its goroutine over a list of events, `rewrite` the Rewrite
--   function of the reverse proxy, `authorize` and `oidc_identity` the permission check.
-- - Controller: internal/controller and the types of api/v1alpha1. Objects and Pods hold the
--   records; Effects has the calls of the API server; Setup, Policies, Routes, Slug, Denials,
--   Sessions, History, Access, Cutover, Services, Ingresses, Probing and Readiness have the
--   functions, one for each of the source; Checksum and Watch have computeSecretChecksum,
--   SetupWithManager and findChatUIInstancesForSecret. Workload has buildDeployment, with its
--   environment and probes in Environment and Probes, and Template, Gated and Rollout have
--   managedAccessTemplate, applyAccessDeployment and reconcileDeployment. Reconcile is the
--   handler: each function of it is the code from one check on, and calls the next one.
--   Effects/Sends, Effects/Logs and Effects/Outcomes have rules for what an action sends and
--   returns, Effects/Reads for actions that send nothing, Effects/Keeping for an invariant that an
--   action keeps; Access/Reading and Preserving apply them to prepareAccess; Reconcile/Quiet,
--   Preparing, Publishing and Walking apply them to the parts of the handler; Policies/Stopping,
--   Routes/Checking, Routes/Claims, Routes/Withdrawing, Slug/Recording, Denials/Safety,
--   Denials/Reporting, Sessions/Trusting, Sessions/Creating, Access/Pins, Access/Provenance,
--   History/Retiring, Checksum/Sorting, Ingresses/Managed, Ingresses/Updates, Cutover,
--   Readiness/Judging, Workload/Settling, Reconcile/Admission, Requests, Deleting, Guarding and
--   Reporting have the theorems.
-- - Operator: cmd/main.go. `main` goes from the flags, the environment, the files and the manager
--   to how the process ends; Labels is the labelling client. AccessProxy: cmd/access-
--   proxy/main.go, where `run` gives the servers and the error.
-- - Errors: the error values and errors.Is. Dictionary, Text, Prelude: Go maps, the functions of
--   strings and path that the source calls, and what the modules share.
-- - Examples of each part, with the data of Samples, have the theorems at concrete inputs.
--
-- A function of the reconciler is an action: it goes from a run, the log of the writes so far and
-- the object that `inst` points to, to an answer or an error and a run. What the API server, the
-- cache, the probes and the random source answer may depend on the whole log, and nothing is
-- assumed of it.
--
-- Third-party code is a parameter: encoding/json, net/url, time.Parse, base64, SHA-256, the DNS
-- checks of k8s.io/apimachinery, meta.SetStatusCondition, KCP and the API server. Where a theorem
-- relies on documented behaviour of one, a record states it: IsDigest, IsDnsCheck, IsSlashFree,
-- IsCanonical, IsByName. The size limits of the files count characters. A range over a Go map is a
-- run through an association list. Lower case and white space are ASCII. Instants are numbers,
-- with 0 for the zero time; int32 and int64 values that the API server keeps from being negative
-- are natural numbers. Every loop is structural recursion, so no fuel is needed.
--
-- Not modelled: telemetry, logging and tracing; the manager and its queue, which decide when
-- Reconcile runs; the generated deep copies; the Python guard, which the operator only copies; the
-- requests of HTTP and DNS themselves, whose answers are parameters.

pub mod AccessGate
pub mod AccessPolicy
pub mod AccessProxy
pub mod Controller
pub mod Dictionary
pub mod Errors
pub mod HostnamePolicy
pub mod Operator
pub mod Prelude
pub mod Text
