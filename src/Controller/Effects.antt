-- ===== src/Controller/Effects.antt =====
-- The calls of the reconciler: a write is logged with what it sends, and every answer of the API
-- server, the cache, the probes and the random source may depend on all writes so far. Nothing is
-- assumed of the answers here; a theorem that relies on the server says so by a hypothesis.
pub mod Sends
pub mod Logs
pub mod Reads
pub mod Outcomes
pub mod Keeping
use showroom_msp_chat_ui.Prelude.{String, List, ◌∷◌, ℕ, Bool, false, Option, none, some}
use showroom_msp_chat_ui.Controller.Objects.{Instance, Key, Service, Ingress, Secret, Subset}
use showroom_msp_chat_ui.Errors.{Result, Error, ok, err}
use showroom_msp_chat_ui.Controller.Pods.{Deployment, PodSpec, Selector}

-- The writes that the reconciler sends, with their objects; a deletion has its preconditions.
pub data Write : Type 0 where
  update_instance : Instance → Write
  patch_status : Instance → Write
  update_status : Instance → Write
  create_deployment : Deployment → Write
  update_deployment : Deployment → Write
  create_service : Service → Write
  update_service : Service → Write
  create_ingress : Ingress → Write
  update_ingress : Ingress → Write
  delete_ingress : Key → String → String → Write
  create_secret : Secret → Write
  delete_secret : Key → String → String → Write

-- The writes so far, the latest first.
abbrev pub Log : Type 0
Log = List Write

-- What the reconciler calls. The reads by name go to the API server (RouteReader), but for those
-- marked cached. A write of an instance or the creation of a Secret answers with the stored object,
-- any other write with nothing. A checker that is not configured is none.
pub record Api : Type 0 where
  pub get_instance : Log → Key → Result Instance
  pub get_deployment : Log → Key → Result Deployment
  pub get_service : Log → Key → Result Service
  pub get_ingress : Log → Key → Result Ingress
  pub get_secret : Log → Key → Result Secret
  pub list_ingresses : Log → Result (List Ingress)
  pub list_deployments : Log → String → Result (List Deployment)
  pub list_pods : Log → String → Result (List PodSpec)
  pub list_matching_pods : Log → String → Selector → Result (List PodSpec)
  pub random : Log → String → Option String
  pub cached_secret : Log → Key → Result Secret
  pub cached_deployment : Log → Key → Result Deployment
  pub cached_endpoints : Log → Key → Result (List Subset)
  pub service_health_checker : Option (Log → String → Result (Unit {0}))
  pub dns_checker : Option (Log → String → Result (Unit {0}))
  pub request : Log → String → Result ℕ
  pub lookup_host : Log → String → Result (List String)
  pub send : Log → Write → Result (Unit {0})
  pub send_instance : Log → Write → Result Instance
  pub send_secret : Log → Write → Result Secret

-- The state of one call of Reconcile: the writes so far, and the object that `inst` points to.
pub record Run : Type 0 where
  pub log : Log
  pub inst : Instance

-- A step: an answer or an error, and the state.
abbrev pub Action {ℓ} : Type ℓ → Type ℓ
Action A = Run → Result A × Run

module _ {ℓ} {A : Type ℓ} where
  abbrev pub pure : A → Action A
  pure a s = (ok a, s)

  abbrev pub fail : Error → Action A
  fail e s = (err e, s)

  abbrev pub lift : Result A → Action A
  lift r s = (r, s)

  -- a read
  abbrev pub ask : (Log → Result A) → Action A
  ask f s = (f s.log, s)

  -- a write: it is logged, whether or not it succeeds
  abbrev pub write : (Log → Write → Result A) → Write → Action A
  write f w s = (f s.log w, record s { log = w ∷ s.log })

  -- the error as a value, as where Go keeps err in a variable
  unfoldable pub attempt : Action A → Action (Result A)
  attempt m s = let (r, s') = m s in (ok r, s')

-- `inst`, and an assignment to what it points to
abbrev pub current : Action Instance
current s = (ok s.inst, s)

abbrev pub put : Instance → Action (Unit {0})
put inst s = (ok tt, record s { inst = inst })

module _ {ℓ κ} {A : Type ℓ} {B : Type κ} where
  abbrev pub continue : Result A → (A → Action B) → Action B
  continue (ok a) f s = f a s
  continue (err e) f s = (err e, s)

  infixl 5 ◌>>=◌ ◌>>◌
  unfoldable pub ◌>>=◌ : Action A → (A → Action B) → Action B
  ◌>>=◌ m f s = let (r, s') = m s in continue r f s'

  abbrev pub ◌>>◌ : Action A → Action B → Action B
  m >> n = m >>= λ _. n

abbrev pub error_of {ℓ} : {A : Type ℓ} → Result A → Option Error
error_of (ok a) = none
error_of (err e) = some e

-- ctrl.Result, with seconds, and the error that is returned beside it
pub record Answer : Type 0 where
  pub requeue : Bool
  pub requeue_after : ℕ
  pub error : Option Error

abbrev pub after : ℕ → Option Error → Answer
after seconds e = record { requeue = false; requeue_after = seconds; error = e }

abbrev pub finished : Answer
finished = after 0 none

abbrev pub failed : Error → Answer
failed e = after 0 (some e)
