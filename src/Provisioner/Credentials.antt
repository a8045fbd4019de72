-- ===== src/Provisioner/Credentials.antt =====
-- internal/provisioner/credentials.go
pub mod Laws
use dbaas.Prelude.{Bool, true, false, ◌&&◌, List, [], ◌∷◌, if◌then◌else◌}
use dbaas.Prelude.Text.{Text, codes, ◌==◌}
use dbaas.Prelude.Dict
use dbaas.Prelude.Dict.{insert}
use dbaas.Exec.{
  Error, errorf, wrap, Result, ok, err, is_not_found, is_already_exists, Exec, pure, raise, lift,
  attempt, or_wrap, ◌>>=◌, ◌>>◌,
}
use dbaas.Url.{UrlPackage}
use dbaas.Cluster.{
  Server, Endpoint, Key, Kind, Object, Workspace, workspace, Plain, name_space, service_account,
  Secret, secret, RoleRef, Subject, ClusterRoleBinding, cluster_role_binding, Meta,
}
use dbaas.Provisioner.Bindings.{named}
use dbaas.Provisioner.Env.{
  Provisioner, workspace_credential_annotation, workspace_service_account_name,
  workspace_token_secret_name, workspace_cluster_role_bind_name, workspace_default_namespace,
  CredentialMode, admin, scoped, client_for_workspace, cluster_key, default_key,
}
use Prim.Native.String.{String}

-- `workspaceCredentialMode(workspace)`
unfoldable pub workspace_credential_mode : Workspace → CredentialMode
workspace_credential_mode w =
    if Dict.read workspace_credential_annotation w.meta.annotations == codes "true"
    then scoped
    else admin

-- The workspace with its annotation set.
unfoldable pub marked : Workspace → Workspace
marked w = record w {
  meta = record w.meta {
    annotations = insert workspace_credential_annotation (codes "true") w.meta.annotations;
  };
}

-- Metadata in the default namespace.
abbrev pub named_default : Text → Meta
named_default name = record (named name) { namespace = workspace_default_namespace }

abbrev pub workspace_namespace : Plain
workspace_namespace = record { meta = named workspace_default_namespace }

abbrev pub workspace_service_account : Plain
workspace_service_account = record { meta = named_default workspace_service_account_name }

abbrev pub workspace_token_secret : Secret
workspace_token_secret = record {
  meta = record (named_default workspace_token_secret_name) {
    annotations = (codes "kubernetes.io/service-account.name", workspace_service_account_name) ∷ [];
  };
  kind = codes "kubernetes.io/service-account-token";
  value = [];
}

abbrev pub workspace_role_ref : RoleRef
workspace_role_ref = record {
  api_group = codes "rbac.authorization.k8s.io";
  kind = codes "ClusterRole";
  name = codes "cluster-admin";
}

abbrev pub workspace_subject : Subject
workspace_subject = record {
  kind = codes "ServiceAccount";
  api_group = [];
  namespace = workspace_default_namespace;
  name = workspace_service_account_name;
}

-- `desired` of `ensureAdminClusterRoleBinding`
abbrev pub workspace_role_binding : ClusterRoleBinding
workspace_role_binding = record {
  meta = named workspace_cluster_role_bind_name;
  role_ref = workspace_role_ref;
  subjects = workspace_subject ∷ [];
}

unfoldable pub same_role_ref : RoleRef → RoleRef → Bool
same_role_ref a b = a.api_group == b.api_group && a.kind == b.kind && a.name == b.name

unfoldable pub same_subject : Subject → Subject → Bool
same_subject a b =
    a.kind == b.kind && a.api_group == b.api_group && a.namespace == b.namespace && a.name == b.name

unfoldable pub one_subject : List Subject → Bool
unfolding same_subject
one_subject (s ∷ []) = same_subject s workspace_subject
one_subject _ = false

-- The test on an existing binding.
unfoldable pub is_desired : ClusterRoleBinding → Bool
unfolding one_subject same_role_ref
is_desired b = one_subject b.subjects && same_role_ref b.role_ref workspace_role_ref

module _ {W : Type 0} (S : Server W) where
  -- `err != nil && !apierrors.IsAlreadyExists(err)`
  unfoldable pub created_or_exists : String → List Text → Result (Unit {0}) → Exec W (Unit {0})
  created_or_exists f args (ok _) = pure tt
  created_or_exists f args (err e) = if is_already_exists e then pure tt else raise (wrap f args e)

  -- The shape of `ensureWorkspaceNamespace`, `ensureServiceAccount` and `ensureTokenSecret`: what
  -- follows the read of an object, with the two formats of errors.
  unfoldable pub create_missing :
      (k : Kind)
      → Key
      → Object k
      → String
      → String
      → List Text
      → Result (Object k)
      → Exec W (Unit {0})
  create_missing k key desired getting creating args (ok existing) = pure tt
  create_missing k key desired getting creating args (err e) =
      if is_not_found e
      then (do r ← attempt (S.create k key desired); created_or_exists creating args r)
      else raise (wrap getting args e)

  module _ (client : Endpoint) where
    unfoldable pub ensure_workspace_namespace : Exec W (Unit {0})
    ensure_workspace_namespace = do
      r ← attempt (S.get name_space (cluster_key client workspace_default_namespace))
      create_missing name_space (cluster_key client workspace_default_namespace) workspace_namespace
          "getting namespace %q: %w" "creating namespace %q: %w" (workspace_default_namespace ∷ [])
          r

    unfoldable pub ensure_service_account : Exec W (Unit {0})
    ensure_service_account = do
      r ← attempt (S.get service_account (default_key client workspace_service_account_name))
      create_missing service_account (default_key client workspace_service_account_name)
          workspace_service_account "getting service account: %w" "creating service account: %w" []
          r

    unfoldable pub ensure_token_secret : Exec W (Unit {0})
    ensure_token_secret = do
      r ← attempt (S.get secret (default_key client workspace_token_secret_name))
      create_missing secret (default_key client workspace_token_secret_name) workspace_token_secret
          "getting token secret: %w" "creating token secret: %w" [] r

    abbrev pub role_binding_key : Key
    role_binding_key = cluster_key client workspace_cluster_role_bind_name

    -- What follows the read in `ensureAdminClusterRoleBinding`.
    unfoldable pub role_binding_found : Result ClusterRoleBinding → Exec W (Unit {0})
    role_binding_found (err e) =
        if is_not_found e
        then (do
          r ← attempt (S.create cluster_role_binding role_binding_key workspace_role_binding)
          created_or_exists "creating cluster role binding: %w" [] r)
        else raise (wrap "getting cluster role binding: %w" [] e)
    role_binding_found (ok existing) =
        if is_desired existing
        then pure tt
        else or_wrap "updating cluster role binding: %w" [] (
            S.update cluster_role_binding role_binding_key (record existing {
              role_ref = workspace_role_ref;
              subjects = workspace_subject ∷ [];
            }))

    unfoldable pub ensure_admin_cluster_role_binding : Exec W (Unit {0})
    ensure_admin_cluster_role_binding = do
      r ← attempt (S.get cluster_role_binding role_binding_key)
      role_binding_found r

  -- `markWorkspaceScopedCredentials`
  unfoldable pub mark_workspace_scoped_credentials : Endpoint → Text → Exec W (Unit {0})
  mark_workspace_scoped_credentials client name = do
    w ← S.get workspace (cluster_key client name)
    S.update workspace (cluster_key client name) (marked w)

module _ (U : UrlPackage) {W : Type 0} (S : Server W) (P : Provisioner) where
  -- `len(raw) > 0`
  unfoldable pub token_of_raw : Text → Exec W Text
  token_of_raw (c ∷ raw) = pure (c ∷ raw)
  token_of_raw [] =
      raise (errorf "workspace token secret %q has no token yet" (workspace_token_secret_name ∷ []))

  -- `workspaceServiceAccountToken`
  unfoldable pub workspace_service_account_token : Text → Exec W Text
  workspace_service_account_token path = do
    client ←
        or_wrap "creating workspace kube client: %w" [] (lift (client_for_workspace U S P path))
    s ←
        or_wrap "getting workspace token secret: %w" []
          (S.get secret (default_key client workspace_token_secret_name))
    token_of_raw (Dict.read (codes "token") s.value)

  -- The objects of `ensureScopedWorkspaceCredentials`, in its order.
  unfoldable pub ensure_credentials : Endpoint → Exec W (Unit {0})
  ensure_credentials client = do
    ensure_workspace_namespace S client
    ensure_service_account S client
    ensure_token_secret S client
    ensure_admin_cluster_role_binding S client

  -- `ensureScopedWorkspaceCredentials`
  unfoldable pub ensure_scoped_workspace_credentials : Text → Exec W (Unit {0})
  ensure_scoped_workspace_credentials path = do
    client ←
        or_wrap "creating workspace kube client: %w" [] (lift (client_for_workspace U S P path))
    ensure_credentials client
    token ← workspace_service_account_token path
    pure tt
