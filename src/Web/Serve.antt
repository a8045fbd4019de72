-- ===== src/Web/Serve.antt =====
-- cmd/provisioner/main.go: what `main` sets up, the routes of the mux, and the periodic work.
pub mod Reads
pub mod Paths
pub mod Steps
use dbaas.Prelude.{
  Bool, true, false, ◌&&◌, ◌||◌, List, [], ◌∷◌, ◌++◌, Option, none, some, if◌then◌else◌,
}
use dbaas.Prelude.Text.{Text, codes, slash, split, ◌==◌}
use dbaas.Exec.{Result, Exec, pure, ◌>>=◌, ◌>>◌}
use dbaas.Url.{UrlPackage}
use dbaas.Cluster.{Server, RestConfig, PermissionClaim}
use dbaas.Provisioner.Env.{Provisioner, WorkspaceBinding}
use dbaas.Provisioner.Headlamp.{MapOrder, reconcile_headlamp}
use dbaas.Provisioner.Host.{NetPackage}
use dbaas.Provisioner.Kubeconfig.{Config}
use dbaas.Provisioner.Workspaces.{Task, reconcile_workspace_bindings}
use dbaas.Web.Forwarded.{Request}
use dbaas.Web.Handlers.{
  Answer, WebPackage, only, not_allowed, handle_index, handle_admin_kubeconfig,
  handle_create_workspace, handle_kubeconfig, handle_delete_workspace,
}

-- The flags that the provisioner is made of.
pub record Flags : Type 0 where
  pub provider_workspace : Text
  pub export_name : Text
  pub kubernetes_export : Text
  pub consumers_workspace : Text

abbrev pub default_flags : Flags
default_flags = record {
  provider_workspace = codes "root:dbaas-provider";
  export_name = codes "databases.dbaas.mongodb.com";
  kubernetes_export = codes "kubernetes.dbaas.mongodb.com";
  consumers_workspace = codes "root:consumers";
}

-- `acceptedEventsClaim`; the argument is the constant `ClaimAccepted`.
abbrev pub accepted_events_claim : Text → PermissionClaim
accepted_events_claim claim_accepted = record {
  resource = codes "events";
  verbs = codes "*" ∷ [];
  match_all = true;
  state = claim_accepted;
}

abbrev pub events_binding : Text → Text → Text → WorkspaceBinding
events_binding claim_accepted name export_name = record {
  name = name;
  export_name = export_name;
  permission_claims = accepted_events_claim claim_accepted ∷ [];
}

-- The provisioner of `main`: the flags, the admin config, and whether there is a cluster client.
unfoldable pub new_provisioner : Text → Flags → RestConfig → Bool → Provisioner
new_provisioner claim_accepted flags cfg in_cluster = record {
  admin_config = cfg;
  provider_workspace = flags.provider_workspace;
  bindings =
      events_binding claim_accepted (codes "dbaas") flags.export_name
      ∷ events_binding claim_accepted (codes "kubernetes") flags.kubernetes_export
      ∷ [];
  consumers_workspace = flags.consumers_workspace;
  in_cluster = in_cluster;
  headlamp_namespace = codes "headlamp";
  headlamp_secret = codes "headlamp-workspace-kubeconfig";
  headlamp_deployment = codes "headlamp";
}

-- The handlers of the mux, with the value of `{name}`.
pub data Route : Type 0 where
  to_index to_admin_kubeconfig to_create : Route
  to_kubeconfig to_delete : Text → Route
  nowhere : Route

-- The two segments behind `/api/workspaces`, if these are all. The mux redirects a path that is not
-- clean, such as one whose name is empty, `.` or `..`, before it looks for a pattern: the paths here
-- are those that it hands on.
unfoldable pub workspace_segments : List Text → Option (Text × Text)
workspace_segments (root ∷ api ∷ workspaces ∷ name ∷ action ∷ []) =
    if root == [] && (api == codes "api" && workspaces == codes "workspaces")
    then some (name, action)
    else none
workspace_segments _ = none

-- `GET /` takes every path that has no pattern of its own.
unfoldable pub get_below : Option (Text × Text) → Route
get_below none = to_index
get_below (some (name, action)) =
    if action == codes "kubeconfig" then to_kubeconfig name else to_index

unfoldable pub get_route : Text → Route
get_route path =
    if path == codes "/api/admin.kubeconfig"
    then to_admin_kubeconfig
    else get_below (workspace_segments (split path slash))

unfoldable pub post_below : Option (Text × Text) → Route
post_below none = nowhere
post_below (some (name, action)) = if action == codes "delete" then to_delete name else nowhere

unfoldable pub post_route : Text → Route
post_route path =
    if path == codes "/api/workspaces"
    then to_create
    else post_below (workspace_segments (split path slash))

-- A pattern for GET takes HEAD as well.
unfoldable pub is_get : Text → Bool
is_get method = method == codes "GET" || method == codes "HEAD"

unfoldable pub route : Text → Text → Route
route method path =
    if is_get method
    then get_route path
    else if method == codes "POST"
    then post_route path
    else nowhere

module _ (N : NetPackage) (G : WebPackage) (U : UrlPackage) (write : Config → Result Text)
    {W : Type 0} (S : Server W) (P : Provisioner) where
  unfoldable pub dispatch : Request → Route → Exec W Answer
  dispatch r to_index = handle_index N G U write S P r
  dispatch r to_admin_kubeconfig = handle_admin_kubeconfig N G U write S P r
  dispatch r to_create = handle_create_workspace N G U write S P r.form_name
  dispatch r (to_kubeconfig name) = handle_kubeconfig N G U write S P r name
  dispatch r (to_delete name) = handle_delete_workspace N G U write S P name
  dispatch r nowhere = pure (only not_allowed)

  unfoldable pub serve : Request → Exec W Answer
  serve r = dispatch r (route r.method r.path)

module _ (load : Text → Result Config) (write : Config → Result Text) (O : MapOrder)
    (U : UrlPackage) {W : Type 0} (S : Server W) (P : Provisioner) where
  -- One round of `startHeadlampReconcileLoop`, at the time `now`.
  unfoldable pub reconcile_round : Text → Exec W (List Task)
  reconcile_round now = do
    tasks ← reconcile_workspace_bindings U S P
    reconcile_headlamp load write U S P O now
    pure tasks

  -- `startHeadlampReconcileLoop`: a round at once, and one for each tick until it is stopped.
  unfoldable pub start_headlamp_reconcile_loop : Text → List Text → Exec W (List Task)
  start_headlamp_reconcile_loop now [] = reconcile_round now
  start_headlamp_reconcile_loop now (tick ∷ ticks) = do
    tasks ← reconcile_round now
    more ← start_headlamp_reconcile_loop tick ticks
    pure (tasks ++ more)
