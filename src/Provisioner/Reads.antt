-- ===== src/Provisioner/Reads.antt =====
-- The operations of the provisioner that only read: each keeps what the reads of the servers keep.
use dbaas.Prelude.{List, [], ◌∷◌, Option, none, some}
use dbaas.Prelude.Text.{Text, codes}
use dbaas.Exec.{Result, ok, err}
use dbaas.Exec.Keeps.{
  Keeps, Keeps-bind, Keeps-attempt, Keeps-if, Keeps-or_wrap, Keeps-pure, Keeps-raise, Keeps-lift,
  keeps_rules,
}
use dbaas.Url.{UrlPackage}
use dbaas.Cluster.{Server, Endpoint, Workspace, workspace, logical_cluster, database, secret}
use dbaas.Cluster.Respects.{Reads}
use dbaas.Provisioner.Credentials.{token_of_raw, workspace_service_account_token}
use dbaas.Provisioner.Env.{Provisioner, CredentialMode, admin, scoped, cluster_key}
use dbaas.Provisioner.Kubeconfig.{
  Config, user_of_mode, workspace_kubeconfig, kubeconfig_bytes_for_external_base_url, base_url_over,
  external_kcp_base_url, admin_base_url, admin_kubeconfig_bytes_for_external_base_url,
}
use dbaas.Provisioner.Listing.{
  status_over, logical_cluster_deletion_status, count_over, count_databases, workspace_info,
  workspace_infos, list_workspaces,
}
use dbaas.Provisioner.Workspaces.{consumers_client, list_consumer_workspaces, get_workspace}

module _ {W : Type 0} {K : W → Type 0} (S : Server W) (Q : Reads S K) (U : UrlPackage)
    (P : Provisioner) where
  token_of_raw_rule : (raw : Text) → Keeps K (token_of_raw U S P raw)
  unfolding token_of_raw
  token_of_raw_rule (c ∷ raw) = Keeps-pure _
  token_of_raw_rule [] = Keeps-raise _

  pub Keeps-workspace_service_account_token :
      (path : Text) → Keeps K (workspace_service_account_token U S P path)
  unfolding workspace_service_account_token
  Keeps-workspace_service_account_token path =
      Keeps-bind _ _ (Keeps-or_wrap _ _ _ (Keeps-lift _)) (λ client.
        Keeps-bind _ _ (Keeps-or_wrap _ _ _ (Q.keeps_get secret _)) (λ s. token_of_raw_rule _))

  pub Keeps-list_consumer_workspaces : Keeps K (list_consumer_workspaces U S P)
  unfolding list_consumer_workspaces consumers_client
  Keeps-list_consumer_workspaces =
      Keeps-bind _ _ (Keeps-or_wrap _ _ _ (Keeps-lift _))
        (λ client. Q.keeps_list workspace client [] [])

  pub Keeps-get_workspace : (name : Text) → Keeps K (get_workspace U S P name)
  unfolding get_workspace consumers_client
  Keeps-get_workspace name = Keeps-bind _ _ (Keeps-or_wrap _ _ _ (Keeps-lift _)) (λ client.
      Keeps-or_wrap "getting workspace %q: %w" (name ∷ []) _
        (Q.keeps_get workspace (cluster_key client name)))

  status_rule : (r : Result Endpoint) → Keeps K (status_over U S P r)
  unfolding status_over
  status_rule (err e) = Keeps-pure _
  status_rule (ok client) =
      Keeps-bind _ _
        (Keeps-attempt _ (Q.keeps_get logical_cluster (cluster_key client (codes "cluster"))))
        (λ c. Keeps-pure _)

  count_rule : (r : Result Endpoint) → Keeps K (count_over U S P r)
  unfolding count_over
  count_rule (err e) = Keeps-pure _
  count_rule (ok client) =
      Keeps-bind _ _ (Keeps-attempt _ (Q.keeps_list database client [] [])) (λ c. Keeps-pure _)

  info_rule : (w : Workspace) → Keeps K (workspace_info U S P w)
  unfolding workspace_info logical_cluster_deletion_status count_databases
  info_rule w = search (keeps_rules, status_rule, count_rule)

  infos_rule : (ws : List Workspace) → Keeps K (workspace_infos U S P ws)
  unfolding workspace_infos
  infos_rule [] = Keeps-pure _
  infos_rule (w ∷ ws) =
      Keeps-bind _ _ (info_rule w) (λ _. Keeps-bind _ _ (infos_rule ws) (λ _. Keeps-pure _))

  pub Keeps-list_workspaces : Keeps K (list_workspaces U S P)
  unfolding list_workspaces
  Keeps-list_workspaces =
      Keeps-bind _ _ (Keeps-or_wrap _ _ _ Keeps-list_consumer_workspaces) infos_rule

  module _ (write : Config → Result Text) where
    user_rule : (mode : CredentialMode) (name : Text) → Keeps K (user_of_mode U write S P mode name)
    unfolding user_of_mode
    user_rule admin name = Keeps-pure _
    user_rule scoped name =
        Keeps-bind _ _ (Keeps-workspace_service_account_token _) (λ _. Keeps-pure _)

    pub Keeps-kubeconfig_bytes :
        (w : Workspace) (external : Text)
        → Keeps K (kubeconfig_bytes_for_external_base_url U write S P w external)
    unfolding kubeconfig_bytes_for_external_base_url workspace_kubeconfig
    Keeps-kubeconfig_bytes w external = search (keeps_rules, user_rule)

    over_rule : (parts : Text × Option Text) → Keeps K (base_url_over U write S P parts)
    unfolding base_url_over
    over_rule (parent, none) = Keeps-raise _
    over_rule (parent, some name) = Keeps-bind _ _ (Keeps-or_wrap _ _ _ (Keeps-lift _)) (λ client.
        Keeps-bind _ _ (Keeps-or_wrap _ _ _ (Q.keeps_get workspace (cluster_key client name)))
          (λ w. Keeps-if _ _ _ (Keeps-raise _) (Keeps-lift _)))

    admin_base_rule : (external : Text) → Keeps K (admin_base_url U write S P external)
    unfolding admin_base_url external_kcp_base_url
    admin_base_rule [] = over_rule _
    admin_base_rule (c ∷ external) = Keeps-pure _

    pub Keeps-admin_kubeconfig_bytes :
        (external : Text)
        → Keeps K (admin_kubeconfig_bytes_for_external_base_url U write S P external)
    unfolding admin_kubeconfig_bytes_for_external_base_url
    Keeps-admin_kubeconfig_bytes external =
        Keeps-bind _ _ (admin_base_rule external) (λ _. Keeps-lift _)
