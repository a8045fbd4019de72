-- ===== src/Provisioner/Workspaces.antt =====
-- internal/provisioner/workspace.go and binding.go: creating, setting up and deleting workspaces.
pub mod Laws
use dbaas.Prelude.{
  Bool, true, false, not, ◌||◌, List, [], ◌∷◌, ◌++◌, Option, none, some, if◌then◌else◌,
}
use dbaas.Prelude.Text.{Text, codes, ◌==◌}
use dbaas.Exec.{
  Error, errorf, wrap, Result, ok, err, is_already_exists, Exec, pure, raise, lift, attempt,
  or_wrap, ◌>>=◌, ◌>>◌,
}
use dbaas.Url.{UrlPackage}
use dbaas.Cluster.{Server, Endpoint, Workspace, workspace, Meta}
use dbaas.Provisioner.Bindings.{named, ensure_workspace_bindings}
use dbaas.Provisioner.Credentials.{
  ensure_scoped_workspace_credentials, mark_workspace_scoped_credentials,
}
use dbaas.Provisioner.Env.{Provisioner, client_for_workspace, consumer_path, cluster_key}

-- `IsTransientPhase`
unfoldable pub is_transient_phase : Text → Bool
is_transient_phase phase = not (phase == codes "Ready" || phase == [])

-- What a method starts with `go`: `syncHeadlamp` for a workspace, to add or to remove it (`Headlamp.run_task`).
pub data Task : Type 0 where
  headlamp_task : Text → Bool → Task

-- The workspace that `ProvisionWorkspace` creates.
abbrev pub universal : Text → Workspace
universal name = record {
  meta = named name;
  type_name = codes "universal";
  cluster = [];
  url = [];
  mount = none;
  phase = [];
}

module _ (U : UrlPackage) {W : Type 0} (S : Server W) (P : Provisioner) where
  -- A client of the parent of all consumer workspaces.
  unfoldable pub consumers_client : Exec W Endpoint
  consumers_client =
      or_wrap "creating consumers client: %w" []
        (lift (client_for_workspace U S P P.consumers_workspace))

  unfoldable pub workspace_created : Text → Result (Unit {0}) → Exec W (Unit {0})
  workspace_created name (ok _) = pure tt
  workspace_created name (err e) =
      if is_already_exists e
      then pure tt
      else raise (wrap "creating workspace %q: %w" (name ∷ []) e)

  -- `ProvisionWorkspace`
  unfoldable pub provision_workspace : Text → Exec W (Unit {0})
  provision_workspace name = do
    client ← consumers_client
    r ← attempt (S.create workspace (cluster_key client name) (universal name))
    workspace_created name r

  -- `EnsureWorkspaceSetup`
  unfoldable pub ensure_workspace_setup : Text → Exec W (List Task)
  ensure_workspace_setup name = do
    consumers ← consumers_client
    client ←
        or_wrap "creating workspace client: %w" []
          (lift (client_for_workspace U S P (consumer_path U S P name)))
    or_wrap "creating APIBindings in workspace %q: %w" (name ∷ [])
        (ensure_workspace_bindings S P client)
    or_wrap "creating scoped credentials in workspace %q: %w" (name ∷ [])
        (ensure_scoped_workspace_credentials U S P (consumer_path U S P name))
    or_wrap "marking workspace %q for scoped credentials: %w" (name ∷ [])
        (mark_workspace_scoped_credentials S consumers name)
    pure (headlamp_task name true ∷ [])

  -- `GetWorkspace`
  unfoldable pub get_workspace : Text → Exec W Workspace
  get_workspace name = do
    client ← consumers_client
    or_wrap "getting workspace %q: %w" (name ∷ []) (S.get workspace (cluster_key client name))

  -- `GetWorkspaceURL`
  unfoldable pub get_workspace_url : Text → Exec W Text
  get_workspace_url name = do
    w ← get_workspace name
    if w.url == []
        then raise (errorf "workspace %q has no URL (not ready yet?)" (name ∷ []))
        else pure w.url

  -- `DeleteWorkspace`
  unfoldable pub delete_workspace : Text → Exec W (List Task)
  delete_workspace name = do
    client ← consumers_client
    or_wrap "deleting workspace %q: %w" (name ∷ []) (S.delete workspace (cluster_key client name))
    pure (headlamp_task name false ∷ [])

  -- `listConsumerWorkspaces`
  unfoldable pub list_consumer_workspaces : Exec W (List Workspace)
  list_consumer_workspaces = do client ← consumers_client; S.list workspace client [] []

  -- The test that skips a workspace in `ReconcileWorkspaceBindings`.
  unfoldable pub is_skipped : Workspace → Bool
  is_skipped w = w.meta.deleting || is_transient_phase w.phase

  -- An error of one workspace is logged, and the loop goes on.
  unfoldable pub tasks_of : Result (List Task) → List Task
  tasks_of (ok tasks) = tasks
  tasks_of (err e) = []

  -- One round of the loop.
  unfoldable pub set_up : Workspace → Exec W (List Task)
  set_up w =
      if is_skipped w
      then pure []
      else (do r ← attempt (ensure_workspace_setup w.meta.name); pure (tasks_of r))

  unfoldable pub set_up_all : List Workspace → Exec W (List Task)
  set_up_all [] = pure []
  set_up_all (w ∷ ws) = do started ← set_up w; more ← set_up_all ws; pure (started ++ more)

  unfoldable pub set_up_listed : Result (List Workspace) → Exec W (List Task)
  set_up_listed (err e) = pure []
  set_up_listed (ok ws) = set_up_all ws

  -- `ReconcileWorkspaceBindings`
  unfoldable pub reconcile_workspace_bindings : Exec W (List Task)
  reconcile_workspace_bindings = do r ← attempt list_consumer_workspaces; set_up_listed r
