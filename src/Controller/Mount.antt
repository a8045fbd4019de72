-- ===== src/Controller/Mount.antt =====
-- internal/controller/kubernetes/controller.go: the mounted workspace of a workload cluster, and the
-- tenant workspace that it is mounted in.
pub mod Laws
pub mod Tenant
use dbaas.Prelude.{
  Bool, true, false, ◌&&◌, ◌||◌, List, [], ◌∷◌, ◌++◌, Option, none, some, if◌then◌else◌,
}
use dbaas.Prelude.Text.{Text, codes, slash, ◌==◌, trim_suffix}
use dbaas.Prelude.Dict
use dbaas.Exec.{
  Error, errorf, wrap, Result, ok, err, is_not_found, is_already_exists, Exec, pure, raise, lift,
  attempt, or_wrap, wrap_result, ◌>>=◌, ◌>>◌,
}
use dbaas.Url.{Url, base_of}
use dbaas.Cluster.{
  Server, Key, Endpoint, remote, RestConfig, workspace, Workspace, Meta, MountReference,
}
use dbaas.Controller.Env.{Reconciler, Packages}

abbrev pub clusters_path : Text
clusters_path = codes "/clusters/"

-- A workspace object of a parent workspace.
abbrev pub workspace_key : Endpoint → Text → Key
workspace_key parent name = record { endpoint = parent; namespace = []; name = name }

-- The test of the loop of `consumerWorkspacePathForCluster`.
unfoldable pub is_of_cluster : Text → Workspace → Bool
is_of_cluster cluster_id w =
    w.cluster == cluster_id
    || Dict.read (codes "internal.tenancy.kcp.io/cluster") w.meta.annotations == cluster_id

unfoldable pub path_for_cluster : Text → Text → List Workspace → Text
unfolding is_of_cluster
path_for_cluster consumers cluster_id [] = []
path_for_cluster consumers cluster_id (w ∷ ws) =
    if is_of_cluster cluster_id w
    then consumers ++ b':' ∷ w.meta.name
    else path_for_cluster consumers cluster_id ws

-- The test on an existing workspace: its mount refers to this object.
unfoldable pub mounts_object : Text → Text → Workspace → Bool
mounts_object remote_name remote_namespace w = elim w.mount [
  | some m ↦ m.name == remote_name && m.namespace == remote_namespace
  | none ↦ false
]

-- The workspace that is created.
abbrev pub mounted : Text → Text → Text → Workspace
mounted name remote_name remote_namespace = record {
  meta = record {
    name = name;
    namespace = [];
    annotations = [];
    finalizers = [];
    deleting = false;
  };
  type_name = [];
  cluster = [];
  url = [];
  mount = some (record {
    api_version = codes "kro.run/v1alpha1";
    kind = codes "Kubernetes";
    name = remote_name;
    namespace = remote_namespace;
  });
  phase = [];
}

module _ (P : Packages) {W : Type 0} (S : Server W) (R : Reconciler) where
  -- The host of the config in `kcpClientForWorkspace`.
  unfoldable pub workspace_config : Text → Result RestConfig
  unfolding base_of
  workspace_config path =
      elim (wrap_result "parsing kcp host %q: %w" (R.kcp_config.host ∷ [])
        (P.url.parse R.kcp_config.host)) [
          | ok u ↦ ok (record R.kcp_config {
            host = trim_suffix (P.url.print (base_of u)) slash ++ (clusters_path ++ path);
          })
          | err e ↦ err e
        ]

  -- `kcpClientForWorkspace`
  unfoldable pub kcp_client_for_workspace : Text → Result Endpoint
  unfolding workspace_config
  kcp_client_for_workspace path = elim (workspace_config path) [
    | err e ↦ err e
    | ok cfg ↦ elim (S.new_client cfg) [ ok _ ↦ ok (remote cfg) | err e ↦ err e ]
  ]

  -- `consumerWorkspacePathForCluster`
  unfoldable pub consumer_workspace_path_for_cluster : Text → Exec W Text
  consumer_workspace_path_for_cluster cluster_id = do
    client ← lift (kcp_client_for_workspace R.consumers_workspace)
    workspaces ← or_wrap "listing consumer workspaces: %w" [] (S.list workspace client [] [])
    pure (path_for_cluster R.consumers_workspace cluster_id workspaces)

  -- `err != nil && !apierrors.IsAlreadyExists(err)`
  unfoldable pub mount_created : Text → Text → Result (Unit {0}) → Exec W (Unit {0})
  mount_created tenant name (ok _) = pure tt
  mount_created tenant name (err e) =
      if is_already_exists e
      then pure tt
      else raise (wrap "creating mounted workspace %q in %s: %w" (name ∷ tenant ∷ []) e)

  -- `err != nil && !apierrors.IsNotFound(err)`
  unfoldable pub mount_deleted : Text → Result (Unit {0}) → Exec W (Unit {0})
  mount_deleted name (ok _) = pure tt
  mount_deleted name (err e) =
      if is_not_found e
      then pure tt
      else raise (wrap "deleting mounted workspace %q: %w" (name ∷ []) e)

  -- What follows the read of the workspace in `ensureMountedWorkspace`.
  unfoldable pub mount_found :
      Endpoint → Text → Text → Text → Text → Result Workspace → Exec W (Unit {0})
  mount_found client tenant name remote_name remote_namespace (ok existing) =
      if mounts_object remote_name remote_namespace existing
      then pure tt
      else raise (
          errorf "workspace %q already exists in %s with a different mount reference"
            (name ∷ tenant ∷ []))
  mount_found client tenant name remote_name remote_namespace (err e) =
      if is_not_found e
      then (do
        r ← attempt (
            S.create workspace (workspace_key client name)
              (mounted name remote_name remote_namespace))
        mount_created tenant name r)
      else raise (wrap "getting mounted workspace %q: %w" (name ∷ []) e)

  -- `ensureMountedWorkspace`
  unfoldable pub ensure_mounted_workspace : Text → Text → Text → Text → Exec W (Unit {0})
  ensure_mounted_workspace cluster_id name remote_name remote_namespace = do
    tenant ← consumer_workspace_path_for_cluster cluster_id
    if tenant == []
        then raise (errorf "no tenant workspace found for logical cluster %q" (cluster_id ∷ []))
        else (do
          client ← lift (kcp_client_for_workspace tenant)
          existing ← attempt (S.get workspace (workspace_key client name))
          mount_found client tenant name remote_name remote_namespace existing)

  -- `deleteMountedWorkspace`
  unfoldable pub delete_mounted_workspace : Text → Text → Exec W (Unit {0})
  delete_mounted_workspace cluster_id name = do
    tenant ← consumer_workspace_path_for_cluster cluster_id
    if tenant == [] then pure tt else (do
      client ← lift (kcp_client_for_workspace tenant)
      r ← attempt (S.delete workspace (workspace_key client name))
      mount_deleted name r)
