-- ===== src/Cluster/Requests.antt =====
-- The requests that the program makes, over an unknown world `W`.
use native.Mathlib.Decide.{ℕ_discrete}
use package.dbaas.Prelude.{Bool, List, Option}
use package.dbaas.Prelude.Text.{Text}
use package.dbaas.Exec.{Result, Exec}
use package.dbaas.Cluster.Objects.{Kind, Object}

-- `rest.Config`, with the fields that the program reads or writes.
pub record RestConfig : Type 0 where
  pub host : Text
  pub bearer_token : Text
  pub cert_data : Text
  pub key_data : Text
  pub cert_file : Text
  pub key_file : Text
  pub insecure : Bool
  pub ca_data : Text

-- Where a request goes: the cluster that the program runs in, or the server of a config.
pub data Endpoint : Type 0 where
  management : Endpoint
  remote : RestConfig → Endpoint

-- One object of a kind; `namespace` is empty for objects of the cluster.
pub record Key : Type 0 where
  pub endpoint : Endpoint
  pub namespace : Text
  pub name : Text

-- A document of a manifest, as far as the program looks into it.
pub record Document : Type 0 where
  pub is_empty : Bool
  pub group_version_kind : Text
  pub kind : Text
  pub namespace : Text
  pub name : Text
  pub body : Result Text

-- What a REST mapper knows of a kind.
pub record Mapping : Type 0 where
  pub resource : Text
  pub namespaced : Bool

-- A server-side apply with the field manager `dbaas-kubernetes-controller` and force.
pub record Apply : Type 0 where
  pub endpoint : Endpoint
  pub resource : Text
  pub namespace : Option Text
  pub name : Text
  pub body : Text

-- The servers, and the clients that `NewForConfig` makes for them.
pub record Server (W : Type 0) : Type 0 where
  pub new_client : RestConfig → Result (Unit {0})
  pub get : (k : Kind) → Key → Exec W (Object k)
  pub list : (k : Kind) → Endpoint → Text → Text → Exec W (List (Object k))
  pub create : (k : Kind) → Key → Object k → Exec W (Unit {0})
  pub update : (k : Kind) → Key → Object k → Exec W (Unit {0})
  pub patch : (k : Kind) → Key → Object k → Object k → Exec W (Unit {0})
  pub patch_status : (k : Kind) → Key → Object k → Object k → Exec W (Unit {0})
  -- A merge patch of a deployment.
  pub patch_deployment : Key → Text → Exec W (Unit {0})
  pub delete : (k : Kind) → Key → Exec W (Unit {0})
  pub rest_mapping : Endpoint → Text → Exec W Mapping
  pub apply : Apply → Exec W (Unit {0})

pub Key-discrete : Discrete Key
Key-discrete = hlevel ℕ_discrete
