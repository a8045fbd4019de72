-- ===== src/Provisioner/Listing.antt =====
-- internal/provisioner/workspace.go: `ListWorkspaces`.
pub mod Laws
use dbaas.Prelude.{ℕ, suc, Bool, true, false, List, [], ◌∷◌, ◌++◌, if◌then◌else◌}
use dbaas.Prelude.Text.{Text, codes, ◌==◌}
use dbaas.Exec.{Error, Result, ok, err, is_not_found, Exec, pure, lift, attempt, or_wrap, ◌>>=◌}
use dbaas.Url.{UrlPackage}
use dbaas.Cluster.{
  Server, Endpoint, Workspace, Condition, LogicalCluster, logical_cluster, database, Plain, Meta,
}
use dbaas.Provisioner.Credentials.{workspace_credential_mode}
use dbaas.Provisioner.Env.{
  Provisioner, CredentialMode, admin, scoped, client_for_workspace, consumer_path, cluster_key,
}
use dbaas.Provisioner.Workspaces.{is_transient_phase, list_consumer_workspaces}

-- `WorkspaceInfo`
pub record WorkspaceInfo : Type 0 where
  pub name : Text
  pub phase : Text
  pub status : Text
  pub status_class : Text
  pub status_detail : Text
  pub transient : Bool
  pub url : Text
  pub database_count : ℕ
  pub headlamp_ready : Bool

abbrev pub finalizing_parent : Text
finalizing_parent = codes "Finalizing parent"

abbrev pub deleting_content : Text
deleting_content = codes "Deleting content"

abbrev pub terminating_status : Text
terminating_status = codes "Terminating"

-- The UTF-8 bytes of a dash, the status of a workspace without a phase.
abbrev pub dash : Text
dash = 0xe2 ∷ 0x80 ∷ 0x94 ∷ []

abbrev pub length {ℓ} : {A : Type ℓ} → List A → ℕ
length [] = 0
length (x ∷ xs) = suc (length xs)

-- The status of a condition of type WorkspaceContentDeleted.
unfoldable pub condition_status : Condition → Text × Text
condition_status c =
    if c.status == codes "True"
    then (
      finalizing_parent,
      codes "Workspace content is deleted; waiting for the parent Workspace object to be removed.",
    )
    else (deleting_content, c.message)

-- The loop over the conditions: the first one of the type decides.
unfoldable pub conditions_status : Bool → List Condition → Text × Text
unfolding condition_status
conditions_status deleting [] =
    if deleting
    then (deleting_content, codes "LogicalCluster deletion is in progress.")
    else (terminating_status, [])
conditions_status deleting (c ∷ cs) =
    if c.kind == codes "WorkspaceContentDeleted"
    then condition_status c
    else conditions_status deleting cs

unfoldable pub logical_cluster_status : Result LogicalCluster → Text × Text
unfolding conditions_status
logical_cluster_status (ok c) = conditions_status c.meta.deleting c.conditions
logical_cluster_status (err e) =
    if is_not_found e
    then (
      finalizing_parent,
      codes "LogicalCluster is gone; waiting for the parent Workspace object to be removed.",
    )
    else (terminating_status, [])

-- What the info holds before the cases.
abbrev pub base_info : Workspace → WorkspaceInfo
base_info w = record {
  name = w.meta.name;
  phase = w.phase;
  status = w.phase;
  status_class = codes "warning text-dark";
  status_detail = [];
  transient = false;
  url = w.url;
  database_count = 0;
  headlamp_ready = false;
}

unfoldable pub terminating_info : Workspace → Text × Text → WorkspaceInfo
terminating_info w (status, detail) = record (base_info w) {
  phase = terminating_status;
  status = status;
  status_detail = detail;
  transient = true;
  status_class = if status == finalizing_parent then codes "info" else codes "secondary";
}

unfoldable pub is_scoped : CredentialMode → Bool
is_scoped admin = false
is_scoped scoped = true

unfoldable pub ready_info : Workspace → ℕ → WorkspaceInfo
unfolding is_scoped
ready_info w databases = record (base_info w) {
  status = codes "Ready";
  status_class = codes "success";
  headlamp_ready = is_scoped (workspace_credential_mode w);
  database_count = databases;
}

-- The cases of a workspace that is not ready.
unfoldable pub waiting_info : Workspace → WorkspaceInfo
waiting_info w =
    if w.phase == []
    then record (base_info w) { status = dash }
    else record (base_info w) { transient = is_transient_phase w.phase }

module _ (U : UrlPackage) {W : Type 0} (S : Server W) (P : Provisioner) where
  unfoldable pub status_over : Result Endpoint → Exec W (Text × Text)
  status_over (err e) = pure (terminating_status, [])
  status_over (ok client) = do
    c ← attempt (S.get logical_cluster (cluster_key client (codes "cluster")))
    pure (logical_cluster_status c)

  -- `logicalClusterDeletionStatus`
  unfoldable pub logical_cluster_deletion_status : Workspace → Exec W (Text × Text)
  logical_cluster_deletion_status w =
      if w.cluster == []
      then pure (
        finalizing_parent,
        codes "Waiting for workspace cleanup after scheduling metadata removal.",
      )
      else status_over (client_for_workspace U S P w.cluster)

  unfoldable pub count_of_list : Result (List Plain) → ℕ
  count_of_list (ok items) = length items
  count_of_list (err e) = 0

  unfoldable pub count_over : Result Endpoint → Exec W ℕ
  count_over (err e) = pure 0
  count_over (ok client) = do r ← attempt (S.list database client [] []); pure (count_of_list r)

  -- `countDatabases`
  unfoldable pub count_databases : Text → Exec W ℕ
  count_databases path = count_over (client_for_workspace U S P path)

  -- One round of the loop of `ListWorkspaces`.
  unfoldable pub workspace_info : Workspace → Exec W WorkspaceInfo
  workspace_info w =
      if w.meta.deleting
      then (do s ← logical_cluster_deletion_status w; pure (terminating_info w s))
      else if w.phase == codes "Ready"
      then (do n ← count_databases (consumer_path U S P w.meta.name); pure (ready_info w n))
      else pure (waiting_info w)

  unfoldable pub workspace_infos : List Workspace → Exec W (List WorkspaceInfo)
  workspace_infos [] = pure []
  workspace_infos (w ∷ ws) = do
    info ← workspace_info w
    infos ← workspace_infos ws
    pure (info ∷ infos)

  -- `ListWorkspaces`
  unfoldable pub list_workspaces : Exec W (List WorkspaceInfo)
  list_workspaces = do
    ws ← or_wrap "listing workspaces: %w" [] (list_consumer_workspaces U S P)
    workspace_infos ws
