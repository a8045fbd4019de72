-- ===== src/Provisioner/Stays.antt =====
-- What the operations of the provisioner leave in place.
pub mod Prepared
pub mod Loop
pub mod Complete
pub mod Idle
use dbaas.Prelude.{
  Bool, true, false, List, [], ◌∷◌, Option, none, some, if◌then◌else◌, ◌≡◌, ◌≢◌, refl, arith,
}
use dbaas.Prelude.Text.{Text, ◌==◌}
use Prim.Native.String.{String}
use dbaas.Exec.{Error, Result, ok, err, Exec, pure, raise, attempt, ◌>>=◌, ◌>>◌, is_not_found}
use dbaas.Exec.Keeps.{
  Keeps, Keeps-bind, Keeps-attempt, Keeps-if, Keeps-or_wrap, Keeps-pure, Keeps-raise, Keeps-lift,
  keeps_rules,
}
use dbaas.Url.{UrlPackage}
use dbaas.Cluster.{
  Server, Endpoint, Key, Kind, Object, cluster_role_binding, ClusterRoleBinding, workspace,
  Workspace, api_binding, ApiBinding, kubernetes,
}
use dbaas.Cluster.Lawful.{IsLawful}
use dbaas.Cluster.Lawful.Stays
use dbaas.Cluster.Respects.{Respects}
use dbaas.Provisioner.Reads.{Keeps-workspace_service_account_token}
use dbaas.Provisioner.Env.{Provisioner, WorkspaceBinding, cluster_key, scoped, admin}
use dbaas.Provisioner.Bindings.{
  bind_missing, ensure_binding, ensure_bindings, ensure_workspace_bindings, desired_binding,
}
use dbaas.Provisioner.Credentials.{
  workspace_credential_mode, is_desired, created_or_exists, create_missing,
  ensure_workspace_namespace, ensure_service_account, ensure_token_secret, role_binding_key,
  role_binding_found, ensure_admin_cluster_role_binding, mark_workspace_scoped_credentials, marked,
  token_of_raw, workspace_service_account_token, workspace_role_ref, workspace_subject,
  workspace_role_binding, ensure_credentials, ensure_scoped_workspace_credentials,
}
use dbaas.Provisioner.Credentials.Laws.{
  is_desired-role_binding, is_desired-updated, credential_mode-marked,
}
use dbaas.Provisioner.Workspaces.{
  consumers_client, workspace_created, provision_workspace, ensure_workspace_setup,
  list_consumer_workspaces, set_up, set_up_all, set_up_listed, reconcile_workspace_bindings,
  delete_workspace, get_workspace, is_skipped, tasks_of,
}

-- A role binding gives the service account alone cluster-admin, and a workspace is marked for
-- scoped credentials.
abbrev pub Test : (k : Kind) → Object k → Type 0
Test cluster_role_binding b = is_desired b ≡ true
Test workspace w = workspace_credential_mode w ≡ scoped
Test _ o = Unit

-- A role binding that is created gives the same.
abbrev pub Fresh : (k : Kind) → Object k → Type 0
Fresh cluster_role_binding b = is_desired b ≡ true
Fresh _ o = Unit

module _ {W : Type 0} (S : Server W) (L : IsLawful S) (k' : Kind) (key' : Key) where
  -- An object is held that passes the test of its kind.
  abbrev pub Kept : W → Type 0
  Kept = Stays.Stays S L Test k' key'

  pub kept : k' ≢ kubernetes → Respects S Fresh Test Kept
  kept lasting = Stays.Stays-Respects S L Fresh Test k' key' lasting

module _ {W : Type 0} {K : W → Type 0} (S : Server W) (Q : Respects S Fresh Test K) where
  created_rule :
      (f : String) (args : List Text) (r : Result (Unit {0}))
      → Keeps K (created_or_exists S f args r)
  unfolding created_or_exists
  created_rule f args (ok _) = search keeps_rules
  created_rule f args (err e) = search keeps_rules

  missing_rule :
      (k : Kind) (key : Key) (x : Object k) (f g : String) (args : List Text)
      (r : Result (Object k))
      → Fresh k x
      → Keeps K (create_missing S k key x f g args r)
  unfolding create_missing
  missing_rule k key x f g args (ok y) fresh = Keeps-pure tt
  missing_rule k key x f g args (err e) fresh =
      Keeps-if _ _ _
        (Keeps-bind _ _ (Keeps-attempt _ (Q.keeps_create k key x fresh)) (created_rule g args))
        (Keeps-raise _)

  module _ (client : Endpoint) where
    role_binding_rule : (r : Result ClusterRoleBinding) → Keeps K (role_binding_found S client r)
    unfolding role_binding_found
    role_binding_rule (err e) =
        Keeps-if _ _ _
          (Keeps-bind _ _
            (Keeps-attempt _ (
              Q.keeps_create cluster_role_binding (role_binding_key S client) workspace_role_binding
                is_desired-role_binding))
            (created_rule _ _))
          (Keeps-raise _)
    role_binding_rule (ok x) = Keeps-if _ _ _ (Keeps-pure tt) (
        Keeps-or_wrap _ _ _ (
          Q.keeps_update cluster_role_binding (role_binding_key S client) _ (is_desired-updated x)))

    pub Keeps-ensure_workspace_namespace : Keeps K (ensure_workspace_namespace S client)
    unfolding ensure_workspace_namespace
    Keeps-ensure_workspace_namespace = search (keeps_rules, Q.reads.keeps_get, missing_rule)

    pub Keeps-ensure_service_account : Keeps K (ensure_service_account S client)
    unfolding ensure_service_account
    Keeps-ensure_service_account = search (keeps_rules, Q.reads.keeps_get, missing_rule)

    pub Keeps-ensure_token_secret : Keeps K (ensure_token_secret S client)
    unfolding ensure_token_secret
    Keeps-ensure_token_secret = search (keeps_rules, Q.reads.keeps_get, missing_rule)

    pub Keeps-ensure_admin_cluster_role_binding :
        Keeps K (ensure_admin_cluster_role_binding S client)
    unfolding ensure_admin_cluster_role_binding
    Keeps-ensure_admin_cluster_role_binding =
        search (keeps_rules, Q.reads.keeps_get, role_binding_rule)

    pub Keeps-ensure_credentials :
        (U : UrlPackage) (P : Provisioner) → Keeps K (ensure_credentials U S P client)
    unfolding ensure_credentials
    Keeps-ensure_credentials U P = search (
      keeps_rules, Keeps-ensure_workspace_namespace, Keeps-ensure_service_account,
      Keeps-ensure_token_secret, Keeps-ensure_admin_cluster_role_binding,
    )

    pub Keeps-mark : (name : Text) → Keeps K (mark_workspace_scoped_credentials S client name)
    unfolding mark_workspace_scoped_credentials
    Keeps-mark name = Keeps-bind _ _ (Q.reads.keeps_get workspace (cluster_key client name)) (λ x.
        Q.keeps_update workspace (cluster_key client name) (marked x) (credential_mode-marked x))

    bind_missing_rule :
        (P : Provisioner) (b : WorkspaceBinding) (r : Result ApiBinding)
        → Keeps K (bind_missing S P client b r)
    unfolding bind_missing
    bind_missing_rule P b (ok x) = Keeps-pure tt
    bind_missing_rule P b (err e) =
        Keeps-if _ _ _
          (Q.keeps_create api_binding (cluster_key client b.name) (desired_binding P b) tt)
          (Keeps-raise _)

    pub Keeps-ensure_bindings :
        (P : Provisioner) (bs : List WorkspaceBinding) → Keeps K (ensure_bindings S P client bs)
    unfolding ensure_bindings ensure_binding
    Keeps-ensure_bindings P [] = Keeps-pure tt
    Keeps-ensure_bindings P (b ∷ bs) =
        Keeps-bind _ _
          (Keeps-bind _ (bind_missing S P client b)
            (Keeps-attempt _ (Q.reads.keeps_get api_binding (cluster_key client b.name)))
            (bind_missing_rule P b))
          (λ _. Keeps-ensure_bindings P bs)

  module _ (U : UrlPackage) (P : Provisioner) where
    pub Keeps-ensure_scoped_workspace_credentials :
        (path : Text) → Keeps K (ensure_scoped_workspace_credentials U S P path)
    unfolding ensure_scoped_workspace_credentials
    Keeps-ensure_scoped_workspace_credentials path =
        search
          (
            keeps_rules,
            Keeps-workspace_service_account_token S Q.reads U P,
            λ (c : Endpoint). Keeps-ensure_credentials c U P,
          )
          depth 12

    -- The whole setup of a workspace.
    pub Keeps-ensure_workspace_setup : (name : Text) → Keeps K (ensure_workspace_setup U S P name)
    unfolding ensure_workspace_setup consumers_client ensure_workspace_bindings
    Keeps-ensure_workspace_setup name =
        search
          (
            keeps_rules,
            Keeps-ensure_scoped_workspace_credentials,
            Keeps-mark,
            λ (c : Endpoint). Keeps-ensure_bindings c P P.bindings,
          )
          depth 16
