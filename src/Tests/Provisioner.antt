-- ===== src/Tests/Provisioner.antt =====
-- Setting up a consumer workspace.
use dbaas.Prelude.{◌≡◌, refl, true, List, [], ◌∷◌, ◌++◌}
use dbaas.Prelude.Text.{Text, codes, ◌==◌}
use dbaas.Prelude.Dict
use dbaas.Prelude.Dict.{lookup}
use dbaas.Exec.{Result, ok, ◌>>=◌, is_not_found}
use dbaas.Cluster.{Endpoint, remote, Workspace}
use dbaas.Provisioner.Bindings.{
  ensure_workspace_bindings, ensure_bindings, ensure_binding, bind_missing,
}
use dbaas.Provisioner.Bindings.Laws.{AllBound}
use dbaas.Provisioner.Credentials.Laws.{IsProvisioned, IsScoped}
use dbaas.Provisioner.Credentials.{
  ensure_scoped_workspace_credentials, ensure_credentials, ensure_workspace_namespace,
  create_missing, ensure_service_account, ensure_token_secret, ensure_admin_cluster_role_binding,
  role_binding_found, is_desired, mark_workspace_scoped_credentials, workspace_credential_mode,
  marked, token_of_raw, workspace_service_account_token,
}
use dbaas.Provisioner.Env.{
  client_for_workspace, scoped, consumer_path, token_auth_info, workspace_service_account_name,
}
use dbaas.Provisioner.Workspaces.{
  Task, headlamp_task, consumers_client, list_consumer_workspaces, ensure_workspace_setup,
}
use dbaas.Provisioner.Workspaces.Laws.{ensure_workspace_setup_complete}
use dbaas.Provisioner.Kubeconfig.{
  Config, single, cluster_entry, external_url_for_server, workspace_kubeconfig,
}
use dbaas.Provisioner.Kubeconfig.Laws.{
  workspace_kubeconfig_scoped, workspace_kubeconfig_no_fallback,
}
use dbaas.Provisioner.Listing.{WorkspaceInfo, list_workspaces}
use dbaas.Provisioner.Listing.Laws.{names, info_names, list_workspaces_shows_all}
use dbaas.Tests.Memory.{Memory, found, write_missing, write_present, put, replace}
use dbaas.Tests.Fixtures.{
  config, urls, provisioner, binding, consumers, server, lawful, tenant_workspace,
}

-- The client of a path.
abbrev pub client_of : Text → Endpoint
client_of path = remote (config (codes "kcp/clusters/" ++ path))

abbrev pub run_setup : Memory → Result (List Task) × Memory
run_setup = ensure_workspace_setup urls server provisioner (codes "w")

pub run_setup_lem : (run_setup consumers).0 ≡ ok (headlamp_task (codes "w") true ∷ [])
unfolding ensure_workspace_setup ensure_workspace_bindings ensure_bindings ensure_binding ◌>>=◌
    found consumers_client client_for_workspace bind_missing is_not_found write_missing
    ensure_scoped_workspace_credentials ensure_credentials ensure_workspace_namespace create_missing
    put replace ensure_service_account ensure_token_secret ensure_admin_cluster_role_binding
    role_binding_found is_desired ◌==◌ lookup Dict.read mark_workspace_scoped_credentials marked
    token_of_raw workspace_service_account_token write_present
run_setup_lem = refl

ensure_workspace_setup_complete_example :
    (AllBound server lawful provisioner
        (client_of (codes "root:c:w"))
        (binding ∷ [])
        (run_setup consumers).1
      × IsProvisioned server lawful (client_of (codes "root:c:w")) (run_setup consumers).1)
    × IsScoped server lawful (client_of (codes "root:c")) (codes "w") (run_setup consumers).1
unfolding client_for_workspace
ensure_workspace_setup_complete_example =
    ensure_workspace_setup_complete urls server lawful provisioner (codes "w")
      (client_of (codes "root:c")) (client_of (codes "root:c:w")) refl refl consumers
      (headlamp_task (codes "w") true ∷ []) run_setup_lem

-- A workspace with scoped credentials.
abbrev pub scoped_workspace : Workspace
scoped_workspace = marked tenant_workspace

scoped_lem : workspace_credential_mode scoped_workspace ≡ scoped
unfolding workspace_credential_mode marked Dict.insert Dict.read lookup ◌==◌
scoped_lem = refl

url_lem : external_url_for_server urls scoped_workspace.url [] ≡ ok []
unfolding external_url_for_server marked
url_lem = refl

token_lem :
    (workspace_service_account_token urls server provisioner
      (consumer_path urls server provisioner scoped_workspace.meta.name)
      consumers).0
    ≡ ok (codes "t")
unfolding workspace_service_account_token client_for_workspace ◌>>=◌ found token_of_raw Dict.read
    lookup ◌==◌
token_lem = refl

abbrev pub write_config : Config → Result Text
write_config cfg = ok cfg.current_context

abbrev user_config : Config
user_config =
    single (codes "kcp") workspace_service_account_name (codes "workspace")
      (cluster_entry provisioner.admin_config []) (token_auth_info (codes "t"))

scoped_kubeconfig :
    (workspace_kubeconfig urls write_config server provisioner scoped_workspace [] consumers).0
    ≡ ok user_config
scoped_kubeconfig =
    workspace_kubeconfig_scoped urls write_config server provisioner scoped_workspace [] []
      consumers url_lem (codes "t") scoped_lem token_lem

workspace_kubeconfig_no_fallback_example :
    (token : Text) × ((workspace_service_account_token urls server provisioner
        (consumer_path urls server provisioner scoped_workspace.meta.name)
        consumers).0
      ≡ ok token)
    × (user_config.auth_infos ≡ (workspace_service_account_name, token_auth_info token) ∷ [])
workspace_kubeconfig_no_fallback_example =
    workspace_kubeconfig_no_fallback urls write_config server provisioner scoped_workspace [] []
      consumers url_lem user_config scoped_lem scoped_kubeconfig

consumers_lem :
    (list_consumer_workspaces urls server provisioner consumers).0 ≡ ok (tenant_workspace ∷ [])
unfolding list_consumer_workspaces consumers_client client_for_workspace ◌>>=◌
consumers_lem = refl

list_workspaces_shows_all_example :
    (infos : List WorkspaceInfo) × ((list_workspaces urls server provisioner consumers).0
      ≡ ok infos)
    × (info_names infos ≡ names (tenant_workspace ∷ []))
list_workspaces_shows_all_example =
    list_workspaces_shows_all urls server provisioner consumers (tenant_workspace ∷ [])
      consumers_lem
