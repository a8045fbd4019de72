-- ===== src/Provisioner/Headlamp.antt =====
-- internal/provisioner/headlamp.go: the kubeconfig of Headlamp, with an entry for each workspace. Of
-- a kubeconfig that is loaded, the entries have the fields of `Config` alone.
pub mod Stale
pub mod Fill
pub mod Sync
pub mod Removal
use dbaas.Prelude.{
  Bool, true, false, not, ◌&&◌, List, [], ◌∷◌, ◌++◌, Option, none, some, if◌then◌else◌,
}
use dbaas.Prelude.Text.{Text, codes, contains}
use dbaas.Prelude.Dict
use dbaas.Prelude.Dict.{Dict, lookup, insert, erase}
use dbaas.Exec.{Error, Result, ok, err, Exec, pure, lift, attempt, or_wrap, ◌>>=◌, ◌>>◌}
use dbaas.Url.{UrlPackage}
use dbaas.Cluster.{Server, Key, management, Workspace, Secret, secret, Meta, RestConfig}
use dbaas.Provisioner.Credentials.{workspace_credential_mode, workspace_service_account_token}
use dbaas.Provisioner.Env.{
  Provisioner, CredentialMode, admin, scoped, AuthInfo, token_auth_info, admin_auth_info,
  consumer_path,
}
use dbaas.Provisioner.Kubeconfig.{ClusterEntry, Context, Config, cluster_entry}
use dbaas.Provisioner.Workspaces.{list_consumer_workspaces, get_workspace, Task, headlamp_task}

-- The order of `for key := range m`, which Go leaves open.
pub record MapOrder : Type 0 where
  pub of_clusters : Dict ClusterEntry → List Text
  pub of_workspaces : Dict Workspace → List Text

-- `clientcmdapi.NewConfig`
abbrev pub new_config : Config
new_config = record { clusters = []; auth_infos = []; contexts = []; current_context = [] }

-- `_, ok := m[k]`
unfoldable pub has_key : {V : Type 0} → Text → Dict V → Bool
has_key key m = elim (lookup key m) [ some v ↦ true | none ↦ false ]

-- The loop that collects `desired`.
unfoldable pub collect : List Workspace → Dict Workspace → Dict Workspace
collect [] desired = desired
collect (w ∷ ws) desired =
    collect ws (if w.meta.deleting then desired else insert w.meta.name w desired)

unfoldable pub delete_entries : Text → Config → Config
delete_entries name cfg = record cfg {
  clusters = erase name cfg.clusters;
  auth_infos = erase name cfg.auth_infos;
  contexts = erase name cfg.contexts;
}

module _ (P : Provisioner) where
  unfoldable pub managed_prefix : Text
  managed_prefix = codes "/clusters/" ++ (P.consumers_workspace ++ codes ":")

  -- The entry is managed by the provisioner, and its workspace is not desired.
  unfoldable pub is_stale : Dict Workspace → Text → Config → Bool
  unfolding has_key managed_prefix
  is_stale desired name cfg = elim (lookup name cfg.clusters) [
    | none ↦ false
    | some cluster ↦ contains cluster.server managed_prefix && not (has_key name desired)
  ]

  -- One round of the loop of `removeStaleHeadlampEntries`.
  unfoldable pub remove_entry : Dict Workspace → Text → Config → Config
  remove_entry desired name cfg = if is_stale desired name cfg then delete_entries name cfg else cfg

  unfoldable pub remove_entries : Dict Workspace → List Text → Config → Config
  remove_entries desired [] cfg = cfg
  remove_entries desired (name ∷ names) cfg =
      remove_entries desired names (remove_entry desired name cfg)

  -- `removeStaleHeadlampEntries`
  unfoldable pub remove_stale_headlamp_entries : MapOrder → Dict Workspace → Config → Config
  unfolding remove_entries
  remove_stale_headlamp_entries O desired cfg =
      remove_entries desired (O.of_clusters cfg.clusters) cfg

  -- The cluster entry of a workspace, at the address that kcp has within the cluster.
  unfoldable pub headlamp_cluster : Text → ClusterEntry
  headlamp_cluster name = cluster_entry P.admin_config (
      codes "https://kcp-front-proxy.kcp.svc.cluster.local:8443/clusters/"
      ++ (P.consumers_workspace ++ b':' ∷ name))

  abbrev pub headlamp_context : Text → Context
  headlamp_context name = record { cluster = name; auth_info = name }

  unfoldable pub set_entries : Text → AuthInfo → Config → Config
  set_entries name auth cfg = record cfg {
    clusters = insert name (headlamp_cluster name) cfg.clusters;
    auth_infos = insert name auth cfg.auth_infos;
    contexts = insert name (headlamp_context name) cfg.contexts;
  }

  abbrev pub headlamp_key : Key
  headlamp_key = record {
    endpoint = management;
    namespace = P.headlamp_namespace;
    name = P.headlamp_secret;
  }

  abbrev pub deployment_key : Key
  deployment_key = record {
    endpoint = management;
    namespace = P.headlamp_namespace;
    name = P.headlamp_deployment;
  }

-- The merge patch; the time is ASCII, so `%q` only puts quotes around it.
unfoldable pub restart_patch : Text → Text
restart_patch now =
    codes
      "{\"spec\":{\"template\":{\"metadata\":{\"annotations\":{\"kubectl.kubernetes.io/restartedAt\":\""
    ++ (now ++ codes "\"}}}}}")

-- The arguments are `clientcmd.Load` and `clientcmd.Write`.
module _ (load : Text → Result Config) (write : Config → Result Text) where
  -- The config that the secret holds: an unreadable one counts as empty.
  unfoldable pub loaded : Text → Config
  loaded [] = new_config
  loaded (c ∷ raw) = elim (load (c ∷ raw)) [ ok cfg ↦ cfg | err e ↦ new_config ]

  module _ (U : UrlPackage) {W : Type 0} (S : Server W) (P : Provisioner) (O : MapOrder) where
    unfoldable pub token_read : Text → Config → Result Text → Config
    token_read name cfg (err e) = cfg
    token_read name cfg (ok token) = set_entries P name (token_auth_info token) cfg

    unfoldable pub fill_entry : Text → CredentialMode → Config → Exec W Config
    fill_entry name admin cfg = pure (set_entries P name (admin_auth_info P.admin_config) cfg)
    fill_entry name scoped cfg = do
      r ← attempt (workspace_service_account_token U S P (consumer_path U S P name))
      pure (token_read name cfg r)

    unfoldable pub fill_found : Text → Option Workspace → Config → Exec W Config
    fill_found name none cfg = pure cfg
    fill_found name (some ws) cfg = fill_entry name (workspace_credential_mode ws) cfg

    -- The loop over `desired`.
    unfoldable pub fill : Dict Workspace → List Text → Config → Exec W Config
    fill desired [] cfg = pure cfg
    fill desired (name ∷ names) cfg = do
      next ← fill_found name (lookup name desired) cfg
      fill desired names next

    unfoldable pub add_found : Text → Dict Workspace → Result Workspace → Dict Workspace
    add_found name desired (err e) = desired
    add_found name desired (ok ws) = if ws.meta.deleting then desired else insert name ws desired

    -- The switch on `add`.
    unfoldable pub select : Text → Bool → Dict Workspace → Exec W (Dict Workspace)
    select [] add desired = pure desired
    select (c ∷ name) false desired = pure (erase (c ∷ name) desired)
    select (c ∷ name) true desired = do
      r ← attempt (get_workspace U S P (c ∷ name))
      pure (add_found (c ∷ name) desired r)

    -- The secret with a new config.
    unfoldable pub with_config : Text → Secret → Secret
    with_config text s = record s { value = insert (codes "config") text s.value }

    -- What follows the switch.
    unfoldable pub write_entries : Text → Secret → Dict Workspace → Config → Exec W (Unit {0})
    write_entries now s desired cfg = do
      filled ← fill desired (O.of_workspaces desired) cfg
      text ← or_wrap "headlamp sync: marshal kubeconfig" [] (lift (write filled))
      or_wrap "headlamp sync: update secret" []
          (S.update secret (headlamp_key P) (with_config text s))
      or_wrap "headlamp sync: restart deployment" []
          (S.patch_deployment (deployment_key P) (restart_patch now))

    -- `syncHeadlamp` up to the return that an error causes; the error is the one that is logged.
    unfoldable pub sync_steps : Text → Text → Bool → Exec W (Unit {0})
    sync_steps now name add = do
      s ← or_wrap "headlamp sync: get secret" [] (S.get secret (headlamp_key P))
      workspaces ←
          or_wrap "headlamp sync: list consumer workspaces" [] (list_consumer_workspaces U S P)
      desired ← select name add (collect workspaces [])
      write_entries now s desired (
          remove_stale_headlamp_entries P O (collect workspaces [])
            (loaded (Dict.read (codes "config") s.value)))

    -- `syncHeadlamp`, at the time `now`.
    unfoldable pub sync_headlamp : Text → Text → Bool → Exec W (Unit {0})
    sync_headlamp now name add =
        if P.in_cluster then (do r ← attempt (sync_steps now name add); pure tt) else pure tt

    -- `ReconcileHeadlamp`
    unfoldable pub reconcile_headlamp : Text → Exec W (Unit {0})
    reconcile_headlamp now = sync_headlamp now [] false

    -- What a `go` of the other methods runs.
    unfoldable pub run_task : Text → Task → Exec W (Unit {0})
    run_task now (headlamp_task name add) = sync_headlamp now name add
