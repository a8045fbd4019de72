-- ===== src/Cluster/Objects.antt =====
-- Objects of the Kubernetes and kcp APIs, with the fields that the program reads or writes.
use package.dbaas.Prelude.{Bool, Option, List, ℕ}
use package.dbaas.Prelude.Text.{Text}
use package.dbaas.Prelude.Dict.{Dict}

-- `metav1.ObjectMeta`; `deleting` says that the deletion timestamp is set.
pub record Meta : Type 0 where
  pub name : Text
  pub namespace : Text
  pub annotations : Dict Text
  pub finalizers : List Text
  pub deleting : Bool

-- api/v1alpha1/types.go, `Kubernetes`, without the fields that no code of the repository reads.
pub record Kubernetes : Type 0 where
  pub meta : Meta
  pub allow_scheduling_on_control_planes : Option Bool

pub record Condition : Type 0 where
  pub kind : Text
  pub status : Text
  pub message : Text

-- The Cluster API's `Cluster`.
pub record CapiCluster : Type 0 where
  pub meta : Meta
  pub conditions : List Condition
  pub phase : Text

-- A `Secret`; `value` is the map `Data`.
pub record Secret : Type 0 where
  pub meta : Meta
  pub kind : Text
  pub value : Dict Text

pub record ConfigMap : Type 0 where
  pub meta : Meta
  pub value : Dict Text

-- `ObjectReference` of a mount.
pub record MountReference : Type 0 where
  pub api_version : Text
  pub kind : Text
  pub name : Text
  pub namespace : Text

-- kcp's `Workspace`.
pub record Workspace : Type 0 where
  pub meta : Meta
  pub type_name : Text
  pub cluster : Text
  pub url : Text
  pub mount : Option MountReference
  pub phase : Text

-- kcp's `LogicalCluster`.
pub record LogicalCluster : Type 0 where
  pub meta : Meta
  pub conditions : List Condition

-- kcp's `AcceptablePermissionClaim`.
pub record PermissionClaim : Type 0 where
  pub resource : Text
  pub verbs : List Text
  pub match_all : Bool
  pub state : Text

-- kcp's `APIBinding`.
pub record ApiBinding : Type 0 where
  pub meta : Meta
  pub export_name : Text
  pub export_path : Text
  pub permission_claims : List PermissionClaim

-- A `Namespace` or a `ServiceAccount`: nothing but its metadata is read.
pub record Plain : Type 0 where
  pub meta : Meta

pub record RoleRef : Type 0 where
  pub api_group : Text
  pub kind : Text
  pub name : Text

pub record Subject : Type 0 where
  pub kind : Text
  pub api_group : Text
  pub namespace : Text
  pub name : Text

pub record ClusterRoleBinding : Type 0 where
  pub meta : Meta
  pub role_ref : RoleRef
  pub subjects : List Subject

pub record Taint : Type 0 where
  pub key : Text
  pub value : Text
  pub effect : Text

pub record Node : Type 0 where
  pub meta : Meta
  pub taints : List Taint

-- The status of the MongoDB resource, with the fields that the mock controller writes.
pub record MongoDbStatus : Type 0 where
  pub phase : Text
  pub version : Text
  pub message : Text
  pub observed_generation : ℕ

-- The MongoDB resource of the MongoDB Kubernetes operator.
pub record MongoDb : Type 0 where
  pub meta : Meta
  -- `metadata.generation`, which the code reads of this kind alone.
  pub generation : ℕ
  pub version : Text
  pub status : MongoDbStatus

-- The kinds of objects that the program asks for.
pub data Kind : Type 0 where
  kubernetes capi_cluster secret config_map workspace logical_cluster api_binding : Kind
  name_space service_account cluster_role_binding database node mongodb : Kind

pub Kind-discrete : Discrete Kind
Kind-discrete = hlevel

abbrev pub Object : Kind → Type 0
Object kubernetes = Kubernetes
Object capi_cluster = CapiCluster
Object secret = Secret
Object config_map = ConfigMap
Object workspace = Workspace
Object logical_cluster = LogicalCluster
Object api_binding = ApiBinding
Object name_space = Plain
Object service_account = Plain
Object cluster_role_binding = ClusterRoleBinding
Object database = Plain
Object node = Node
Object mongodb = MongoDb

abbrev pub metadata : (k : Kind) → Object k → Meta
metadata kubernetes o = o.meta
metadata capi_cluster o = o.meta
metadata secret o = o.meta
metadata config_map o = o.meta
metadata workspace o = o.meta
metadata logical_cluster o = o.meta
metadata api_binding o = o.meta
metadata name_space o = o.meta
metadata service_account o = o.meta
metadata cluster_role_binding o = o.meta
metadata database o = o.meta
metadata node o = o.meta
metadata mongodb o = o.meta
