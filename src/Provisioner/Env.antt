-- ===== src/Provisioner/Env.antt =====
-- internal/provisioner/provisioner.go: `Provisioner`, its clients and the admin credentials.
use dbaas.Prelude.{Bool, List, [], ◌∷◌, ◌++◌}
use dbaas.Prelude.Text.{Text, codes}
use dbaas.Exec.{Result, ok, err, wrap_result}
use dbaas.Url.{UrlPackage, base_of}
use dbaas.Cluster.{Server, Endpoint, remote, RestConfig, PermissionClaim, Key}

-- `WorkspaceBinding`
pub record WorkspaceBinding : Type 0 where
  pub name : Text
  pub export_name : Text
  pub permission_claims : List PermissionClaim

-- `Provisioner`; `in_cluster` says that `K8sClient` is not nil.
pub record Provisioner : Type 0 where
  pub admin_config : RestConfig
  pub provider_workspace : Text
  pub bindings : List WorkspaceBinding
  pub consumers_workspace : Text
  pub in_cluster : Bool
  pub headlamp_namespace : Text
  pub headlamp_secret : Text
  pub headlamp_deployment : Text

abbrev pub workspace_credential_annotation : Text
workspace_credential_annotation = codes "dbaas.mongodb.com/scoped-kubeconfig"

abbrev pub workspace_service_account_name : Text
workspace_service_account_name = codes "workspace-admin"

abbrev pub workspace_token_secret_name : Text
workspace_token_secret_name = codes "workspace-admin-token"

abbrev pub workspace_cluster_role_bind_name : Text
workspace_cluster_role_bind_name = codes "workspace-service-account-admin"

abbrev pub workspace_default_namespace : Text
workspace_default_namespace = codes "default"

-- `workspaceCredentialMode`
pub data CredentialMode : Type 0 where
  admin scoped : CredentialMode

-- `clientcmdapi.AuthInfo`, with the fields that the program sets.
pub record AuthInfo : Type 0 where
  pub token : Text
  pub client_certificate_data : Text
  pub client_key_data : Text
  pub client_certificate : Text
  pub client_key : Text

-- `clientcmdapi.NewAuthInfo`
abbrev pub new_auth_info : AuthInfo
new_auth_info = record {
  token = [];
  client_certificate_data = [];
  client_key_data = [];
  client_certificate = [];
  client_key = [];
}

-- An AuthInfo with a token alone.
abbrev pub token_auth_info : Text → AuthInfo
token_auth_info token = record new_auth_info { token = token }

-- `adminAuthInfo`: the token, else the certificate's data, else the certificate's files.
unfoldable pub admin_auth_info : RestConfig → AuthInfo
admin_auth_info cfg = elim cfg.bearer_token [
  | c ∷ token ↦ token_auth_info (c ∷ token)
  | [] ↦ elim cfg.cert_data [
    | c ∷ cert ↦ record new_auth_info {
      client_certificate_data = c ∷ cert;
      client_key_data = cfg.key_data;
    }
    | [] ↦ record new_auth_info { client_certificate = cfg.cert_file; client_key = cfg.key_file }
  ]
]

-- `kcpBaseURL`
unfoldable pub kcp_base_url : UrlPackage → Text → Result Text
unfolding base_of
kcp_base_url U server =
    elim (wrap_result "parsing kcp server URL %q: %w" (server ∷ []) (U.parse server)) [
      | ok u ↦ ok (U.print (base_of u))
      | err e ↦ err e
    ]

module _ (U : UrlPackage) {W : Type 0} (S : Server W) (P : Provisioner) where
  -- `configForWorkspace`
  unfoldable pub config_for_workspace : Text → Result RestConfig
  unfolding kcp_base_url
  config_for_workspace path = elim (kcp_base_url U P.admin_config.host) [
    | ok base ↦ ok (record P.admin_config { host = base ++ (codes "/clusters/" ++ path) })
    | err e ↦ err e
  ]

  -- `kcpClientForWorkspace` and `kubeClientForWorkspace`
  unfoldable pub client_for_workspace : Text → Result Endpoint
  unfolding config_for_workspace
  client_for_workspace path = elim (config_for_workspace path) [
    | err e ↦ err e
    | ok cfg ↦ elim (S.new_client cfg) [ ok _ ↦ ok (remote cfg) | err e ↦ err e ]
  ]

  -- The path of a consumer's workspace.
  abbrev pub consumer_path : Text → Text
  consumer_path name = P.consumers_workspace ++ b':' ∷ name

-- An object of a workspace without a namespace.
abbrev pub cluster_key : Endpoint → Text → Key
cluster_key client name = record { endpoint = client; namespace = []; name = name }

-- An object of the default namespace.
abbrev pub default_key : Endpoint → Text → Key
default_key client name = record {
  endpoint = client;
  namespace = workspace_default_namespace;
  name = name;
}
