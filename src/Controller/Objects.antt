-- ===== src/Controller/Objects.antt =====
-- The Kubernetes objects that the reconciler reads and writes, field by field as far as it looks at
-- them, and ChatUIInstance of api/v1alpha1.
use showroom_msp_chat_ui.Prelude.{
  ℕ, String, inl, inr, Bool, false, ◌&&◌, Option, List, ℕ_discrete, ◌==◌, ltb, eqb, Bool-cases,
  ==-true, ==-false,
}
use showroom_msp_chat_ui.Dictionary.{Map}

-- Go's int32; `negsuc n` is -(n + 1).
pub data ℤ : Type 0 where
  pos : ℕ → ℤ
  negsuc : ℕ → ℤ

-- n < z, for a natural number
abbrev pub ltz : ℕ → ℤ → Bool
ltz n (pos m) = ltb n m
ltz n (negsuc m) = false

abbrev pub is_zero : ℤ → Bool
is_zero (pos n) = eqb n 0
is_zero (negsuc n) = false

abbrev pub same_ℤ : ℤ → ℤ → Bool
same_ℤ (pos n) (pos m) = eqb n m
same_ℤ (negsuc n) (negsuc m) = eqb n m
same_ℤ _ _ = false

pub record Key : Type 0 where
  pub namespace : String
  pub name : String

-- metav1.OwnerReference
pub record Owner : Type 0 where
  pub api_version : String
  pub kind : String
  pub name : String
  pub uid : String

-- metav1.ObjectMeta; `controller` is what metav1.GetControllerOf finds, `deleting` whether there is
-- a deletion timestamp, and `created` is 0 for the zero time.
pub record Meta : Type 0 where
  pub name : String
  pub namespace : String
  pub uid : String
  pub resource_version : String
  pub generation : ℕ
  pub created : ℕ
  pub deleting : Bool
  pub finalizers : List String
  pub labels : Map String
  pub annotations : Map String
  pub controller : Option Owner

-- client.ObjectKeyFromObject
abbrev pub key_of : Meta → Key
key_of m = record { namespace = m.namespace; name = m.name }

abbrev pub same_key : Key → Key → Bool
same_key a b = a.namespace == b.namespace && a.name == b.name

abbrev pub supported_image : String
supported_image =
    "ghcr.io/open-webui/open-webui@sha256:096c8f3d3132016210ca87b0b4dff01d2d66d9fe4fee088fae13fc30f9ac54f3"

abbrev pub group_version : String
group_version = "ui.privatellms.msp/v1alpha1"

pub record Condition : Type 0 where
  pub type : String
  pub status : String
  pub reason : String
  pub message : String
  pub observed_generation : ℕ

pub record Spec : Type 0 where
  pub credentials_secret : String
  pub replicas : ℤ
  pub image : String

pub record Status : Type 0 where
  pub access_secret_uids : Map String
  pub phase : String
  pub url : String
  pub slug : String
  pub slug_source : String
  pub observed_generation : ℕ
  pub conditions : List Condition

pub record Instance : Type 0 where
  pub meta : Meta
  pub spec : Spec
  pub status : Status

pub record ServiceBackend : Type 0 where
  pub name : String
  pub port_name : String
  pub port_number : ℕ

pub record Backend : Type 0 where
  pub service : Option ServiceBackend
  pub resource : Option String

pub record HttpPath : Type 0 where
  pub path : String
  pub path_type : Option String
  pub backend : Backend

pub record Rule : Type 0 where
  pub host : String
  pub paths : Option (List HttpPath)

pub record Tls : Type 0 where
  pub hosts : List String
  pub secret_name : String

pub record Ingress : Type 0 where
  pub meta : Meta
  pub class_name : Option String
  pub default_backend : Option Backend
  pub rules : List Rule
  pub tls : List Tls

-- intstr.IntOrString
pub data Target : Type 0 where
  number : ℕ → Target
  named : String → Target

pub record ServicePort : Type 0 where
  pub name : String
  pub port : ℕ
  pub target_port : Target
  pub protocol : String
  pub node_port : ℕ
  pub app_protocol : Option String

-- `rest` stands for the fields that the reconciler only carries along, as those of a load balancer
-- and of the traffic policies.
pub record Service : Type 0 where
  pub meta : Meta
  pub type : String
  pub external_name : String
  pub external_ips : List String
  pub selector : Map String
  pub ports : List ServicePort
  pub rest : String

pub record Subset : Type 0 where
  pub addresses : List String
  pub ports : List ℕ

pub record Secret : Type 0 where
  pub meta : Meta
  pub immutable : Option Bool
  pub contents : Map String

unfoldable pub String-discrete : Discrete String
String-discrete s t = elim (Bool-cases (s == t)) [
  | inl e ↦ yes (==-true e)
  | inr e ↦ no (==-false e)
]

unfoldable pub Condition-discrete : Discrete Condition
Condition-discrete = hlevel (String-discrete, ℕ_discrete)

unfoldable pub Status-discrete : Discrete Status
Status-discrete = hlevel (String-discrete, ℕ_discrete)

unfoldable pub Rules-discrete : Discrete (List Rule)
Rules-discrete = hlevel (String-discrete, ℕ_discrete)
