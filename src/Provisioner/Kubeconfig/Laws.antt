-- ===== src/Provisioner/Kubeconfig/Laws.antt =====
-- Whose credentials a user's kubeconfig carries.
use dbaas.Prelude.{[], ◌∷◌, ◌≡◌, ◌≢◌, ◌∙◌, sym, inl, inr}
use dbaas.Prelude.Text.{Text, codes}
use dbaas.Exec.{Error, Result-cases, Result, ok, err, ◌>>=◌}
use dbaas.Url.{UrlPackage}
use dbaas.Cluster.{Server, Workspace}
use dbaas.Provisioner.Credentials.{workspace_credential_mode, workspace_service_account_token}
use dbaas.Provisioner.Env.{
  Provisioner, scoped, token_auth_info, consumer_path, workspace_service_account_name,
}
use dbaas.Provisioner.Kubeconfig.{
  Config, single, cluster_entry, external_url_for_server, user_of_mode, workspace_kubeconfig,
}

err-ne-ok : {A : Type 0} (r : Result A) (e : Error) (a : A) → r ≡ err e → r ≢ ok a
err-ne-ok r e a h = λ k. cc

module _ (U : UrlPackage) (write : Config → Result Text) {W : Type 0} (S : Server W)
    (P : Provisioner) (ws : Workspace) (external server : Text) (w : W)
    (url_known : external_url_for_server U ws.url external ≡ ok server) where
  -- Let the server's URL be known and the token of the service account be read. The kubeconfig of
  -- a workspace with scoped credentials then has that server as its only cluster and that token as
  -- its only credential, with the admin config's trust in the server.
  pub workspace_kubeconfig_scoped :
      (token : Text)
      → workspace_credential_mode ws ≡ scoped
      → (workspace_service_account_token U S P (consumer_path U S P ws.meta.name) w).0 ≡ ok token
      → (workspace_kubeconfig U write S P ws external w).0
        ≡ ok (
            single
              (codes "kcp")
              workspace_service_account_name
              (codes "workspace")
              (cluster_entry P.admin_config server)
              (token_auth_info token))
  unfolding workspace_kubeconfig user_of_mode ◌>>=◌
  workspace_kubeconfig_scoped token mode got = rw (url_known, mode, got)

  without_token :
      (e : Error)
      → workspace_credential_mode ws ≡ scoped
      → (workspace_service_account_token U S P (consumer_path U S P ws.meta.name) w).0 ≡ err e
      → (workspace_kubeconfig U write S P ws external w).0 ≡ err e
  unfolding workspace_kubeconfig user_of_mode ◌>>=◌
  without_token e mode failed = rw (url_known, mode, failed)

  -- Let the server's URL be known. If a workspace with scoped credentials gets a kubeconfig, then
  -- the token of its service account could be read, and it is the only credential in the
  -- kubeconfig: there is no fallback to the admin credentials.
  pub workspace_kubeconfig_no_fallback :
      (cfg : Config)
      → workspace_credential_mode ws ≡ scoped
      → (workspace_kubeconfig U write S P ws external w).0 ≡ ok cfg
      → (token : Text) × ((workspace_service_account_token U S P
            (consumer_path U S P ws.meta.name)
            w).0
          ≡ ok token)
        × (cfg.auth_infos ≡ (workspace_service_account_name, token_auth_info token) ∷ [])
  unfolding workspace_kubeconfig user_of_mode ◌>>=◌
  workspace_kubeconfig_no_fallback cfg mode done =
      elim (Result-cases
        (workspace_service_account_token U S P (consumer_path U S P ws.meta.name) w).0) [
          | inl (token, got) ↦
              (token, got, (let same = sym done ∙ workspace_kubeconfig_scoped token mode got in cc))
          | inr (e, failed) ↦ absurd (err-ne-ok _ e cfg (without_token e mode failed) done)
        ]
