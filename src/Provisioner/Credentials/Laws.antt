-- ===== src/Provisioner/Credentials/Laws.antt =====
-- The objects of `ensureScopedWorkspaceCredentials`.
use dbaas.Prelude.{arith, inl, [], ◌∷◌, ◌≡◌, true}
use dbaas.Prelude.Text.{Text, eq_refl}
use dbaas.Prelude.Dict.{read-insert}
use dbaas.Exec.Ensures.{Ensures, Ensures-bind, Ensures-any}
use dbaas.Cluster.{
  Server, Endpoint, name_space, service_account, secret, cluster_role_binding, ClusterRoleBinding,
  workspace, Workspace,
}
use dbaas.Cluster.Lawful.{IsLawful}
use dbaas.Cluster.Lawful.Exists.{Exists, ExistsWith}
use dbaas.Provisioner.Credentials.{
  workspace_credential_mode, marked, role_binding_key, is_desired,
  mark_workspace_scoped_credentials, workspace_role_ref, workspace_subject, workspace_role_binding,
}
use dbaas.Provisioner.Env.{
  scoped, workspace_default_namespace, workspace_service_account_name, workspace_token_secret_name,
  cluster_key, default_key,
}

-- The provisioner's own binding passes its test on an existing one.
pub is_desired-role_binding : is_desired workspace_role_binding ≡ true
unfolding is_desired
is_desired-role_binding = simp eq_refl

pub is_desired-updated :
    (b : ClusterRoleBinding)
    → is_desired (record b { role_ref = workspace_role_ref; subjects = workspace_subject ∷ [] })
      ≡ true
unfolding is_desired
is_desired-updated b = simp eq_refl

pub credential_mode-marked : (w : Workspace) → workspace_credential_mode (marked w) ≡ scoped
unfolding workspace_credential_mode marked
credential_mode-marked w = simp (read-insert, eq_refl)

module _ {W : Type 0} (S : Server W) (L : IsLawful S) where
  module _ (client : Endpoint) where
    abbrev HasNamespace : W → Type 0
    HasNamespace = Exists S L name_space (cluster_key client workspace_default_namespace)

    abbrev HasAccount : W → Type 0
    HasAccount = Exists S L service_account (default_key client workspace_service_account_name)

    abbrev HasSecret : W → Type 0
    HasSecret = Exists S L secret (default_key client workspace_token_secret_name)

    -- A cluster role binding that gives the service account, and it alone, cluster-admin.
    abbrev HasRoleBinding : W → Type 0
    HasRoleBinding =
        ExistsWith S L cluster_role_binding (role_binding_key S client) (λ b. is_desired b ≡ true)

    -- The objects of the scoped credentials are there.
    abbrev pub IsProvisioned : W → Type 0
    IsProvisioned w = ((HasNamespace w × HasAccount w) × HasSecret w) × HasRoleBinding w

  -- The workspace carries the annotation of scoped credentials.
  abbrev pub IsScoped : Endpoint → Text → W → Type 0
  IsScoped consumers name =
      ExistsWith S L workspace (cluster_key consumers name)
        (λ x. workspace_credential_mode x ≡ scoped)

  pub mark-IsScoped :
      {Q : W → Type 0} (consumers : Endpoint) (name : Text)
      → Ensures Q
          (mark_workspace_scoped_credentials S consumers name)
          (λ _. IsScoped consumers name)
  unfolding mark_workspace_scoped_credentials
  mark-IsScoped consumers name = Ensures-bind _ _ (Ensures-any _) (λ x. record {
    at = λ w h a q. (
      marked x,
      L.update_ok workspace (cluster_key consumers name) (marked x) w (inl (ground arith)) q,
      credential_mode-marked x,
    );
  })
