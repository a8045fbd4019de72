-- ===== src/Provisioner/Kubeconfig.antt =====
-- internal/provisioner/kubeconfig.go: the kubeconfigs for users.
pub mod Laws
use dbaas.Prelude.{Bool, true, false, List, [], ◌∷◌, ◌++◌, Option, none, some, if◌then◌else◌}
use dbaas.Prelude.Text.{Text, codes, ◌==◌, cut}
use dbaas.Prelude.Dict.{Dict}
use dbaas.Exec.{
  Error, errorf, wrap, Result, ok, err, Exec, pure, raise, lift, or_wrap, wrap_result, ◌>>=◌,
}
use dbaas.Url.{Url, UrlPackage}
use dbaas.Cluster.{Server, Endpoint, RestConfig, Workspace, workspace, Meta}
use dbaas.Provisioner.Credentials.{workspace_credential_mode, workspace_service_account_token}
use dbaas.Provisioner.Env.{
  Provisioner, CredentialMode, admin, scoped, AuthInfo, token_auth_info, admin_auth_info,
  kcp_base_url, client_for_workspace, consumer_path, cluster_key, workspace_service_account_name,
}

-- `clientcmdapi.Cluster`, `Context` and `Config`, with the fields that the program sets.
pub record ClusterEntry : Type 0 where
  pub server : Text
  pub insecure_skip_tls_verify : Bool
  pub certificate_authority_data : Text

pub record Context : Type 0 where
  pub cluster : Text
  pub auth_info : Text

pub record Config : Type 0 where
  pub clusters : Dict ClusterEntry
  pub auth_infos : Dict AuthInfo
  pub contexts : Dict Context
  pub current_context : Text

-- A cluster entry that trusts what the admin config trusts.
unfoldable pub cluster_entry : RestConfig → Text → ClusterEntry
cluster_entry cfg server = record {
  server = server;
  insecure_skip_tls_verify = cfg.insecure;
  certificate_authority_data = if cfg.insecure then [] else cfg.ca_data;
}

-- A config with one cluster, one user and one context.
abbrev pub single : Text → Text → Text → ClusterEntry → AuthInfo → Config
single cluster_name user_name context_name cluster user = record {
  clusters = (cluster_name, cluster) ∷ [];
  auth_infos = (user_name, user) ∷ [];
  contexts = (context_name, record { cluster = cluster_name; auth_info = user_name }) ∷ [];
  current_context = context_name;
}

-- `externalURLForServer`
unfoldable pub external_url_for_server : UrlPackage → Text → Text → Result Text
external_url_for_server U server_url [] = ok server_url
external_url_for_server U server_url (c ∷ external) =
    elim (wrap_result "parsing kcp server URL %q: %w" (server_url ∷ []) (U.parse server_url)) [
      | err e ↦ err e
      | ok server ↦
          elim (wrap_result "parsing external kcp base URL %q: %w" ((c ∷ external) ∷ [])
            (U.parse (c ∷ external))) [
              | err e ↦ err e
              | ok base ↦ ok (U.print (record server { scheme = base.scheme; host = base.host }))
            ]
    ]

-- `clientcmd.Write` is a parameter.
module _ (U : UrlPackage) (write : Config → Result Text) {W : Type 0} (S : Server W)
    (P : Provisioner) where
  -- The user of a workspace's kubeconfig, and its name.
  unfoldable pub user_of_mode : CredentialMode → Text → Exec W (Text × AuthInfo)
  user_of_mode admin name = pure (codes "admin", admin_auth_info P.admin_config)
  user_of_mode scoped name = do
    token ← workspace_service_account_token U S P (consumer_path U S P name)
    pure (workspace_service_account_name, token_auth_info token)

  -- The config that `KubeconfigBytesForExternalBaseURL` writes.
  unfoldable pub workspace_kubeconfig : Workspace → Text → Exec W Config
  workspace_kubeconfig w external = do
    server ← lift (external_url_for_server U w.url external)
    (user_name, user) ← user_of_mode (workspace_credential_mode w) w.meta.name
    pure (
        single (codes "kcp") user_name (codes "workspace") (cluster_entry P.admin_config server)
          user)

  -- `KubeconfigBytesForExternalBaseURL`
  unfoldable pub kubeconfig_bytes_for_external_base_url : Workspace → Text → Exec W Text
  kubeconfig_bytes_for_external_base_url w external = do
    cfg ← workspace_kubeconfig w external
    lift (write cfg)

  -- `KubeconfigBytes`
  unfoldable pub kubeconfig_bytes : Workspace → Exec W Text
  kubeconfig_bytes w = kubeconfig_bytes_for_external_base_url w []

  unfoldable pub base_url_over : Text × Option Text → Exec W Text
  base_url_over (parent, none) = raise (
      errorf "consumers workspace %q is not nested under a parent workspace"
        (P.consumers_workspace ∷ []))
  base_url_over (parent, some name) = do
    client ←
        or_wrap "creating parent workspace client: %w" [] (lift (client_for_workspace U S P parent))
    w ←
        or_wrap "getting consumers workspace %q: %w" (P.consumers_workspace ∷ [])
          (S.get workspace (cluster_key client name))
    if w.url == []
        then raise (errorf "workspace %q has no URL (not ready yet?)" (P.consumers_workspace ∷ []))
        else lift (kcp_base_url U w.url)

  -- `externalKCPBaseURL`
  unfoldable pub external_kcp_base_url : Exec W Text
  external_kcp_base_url = base_url_over (cut P.consumers_workspace b':')

  -- The config that `AdminKubeconfigBytesForExternalBaseURL` writes.
  unfoldable pub admin_kubeconfig : Text → Config
  admin_kubeconfig base_url =
      single (codes "root") (codes "root") (codes "root")
        (cluster_entry P.admin_config (base_url ++ codes "/clusters/root"))
        (admin_auth_info P.admin_config)

  unfoldable pub admin_base_url : Text → Exec W Text
  admin_base_url [] = external_kcp_base_url
  admin_base_url (c ∷ external) = pure (c ∷ external)

  -- `AdminKubeconfigBytesForExternalBaseURL`
  unfoldable pub admin_kubeconfig_bytes_for_external_base_url : Text → Exec W Text
  admin_kubeconfig_bytes_for_external_base_url external = do
    base_url ← admin_base_url external
    lift (write (admin_kubeconfig base_url))

  -- `AdminKubeconfigBytes`
  unfoldable pub admin_kubeconfig_bytes : Exec W Text
  admin_kubeconfig_bytes = admin_kubeconfig_bytes_for_external_base_url []
