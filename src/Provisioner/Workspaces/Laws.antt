-- ===== src/Provisioner/Workspaces/Laws.antt =====
-- What `EnsureWorkspaceSetup` leaves in a workspace.
use dbaas.Provisioner.Stays.Prepared.{InSetup-ne-kubernetes}
use dbaas.Prelude.{List, ◌≡◌}
use dbaas.Prelude.Text.{Text}
use dbaas.Exec.{ok}
use dbaas.Exec.Ensures.{
  Ensures, Ensures-any, Ensures-bind, Ensures-pure, Ensures-or_wrap, Ensures-known,
}
use dbaas.Url.{UrlPackage}
use dbaas.Cluster.{Server, Endpoint}
use dbaas.Cluster.Lawful.{IsLawful}
use dbaas.Provisioner.Bindings.Laws.{AllBound}
use dbaas.Provisioner.Credentials.Laws.{IsProvisioned, IsScoped, mark-IsScoped}
use dbaas.Provisioner.Env.{Provisioner, client_for_workspace, consumer_path}
use dbaas.Provisioner.Settles.Lawful.{
  lawful_settles, AllThere-AllBound, AllCredentials-IsProvisioned,
}
use dbaas.Provisioner.Settles.Setup.{ensure_workspace_setup-All}
use dbaas.Provisioner.Workspaces.{Task, consumers_client, ensure_workspace_setup}

module _ (U : UrlPackage) {W : Type 0} (S : Server W) (L : IsLawful S) (P : Provisioner)
    (name : Text) (consumers client : Endpoint)
    (consumers_found : client_for_workspace U S P P.consumers_workspace ≡ ok consumers)
    (client_found : client_for_workspace U S P (consumer_path U S P name) ≡ ok client) where
  setup-IsScoped :
      Ensures
        (λ _. Unit {0})
        (ensure_workspace_setup U S P name)
        (λ _ w. IsScoped S L consumers name w)
  unfolding ensure_workspace_setup consumers_client
  setup-IsScoped = Ensures-known _ _ _ consumers _ consumers_found (
      Ensures-bind _ _ (Ensures-any _) (λ _. Ensures-bind _ _ (Ensures-any _) (λ _.
        Ensures-bind _ _ (Ensures-any _) (λ _.
          Ensures-bind _ _ (Ensures-or_wrap _ _ _ (mark-IsScoped S L consumers name))
            (λ _. Ensures-pure _ (λ w h. h))))))

  -- Over servers that are lawful (`IsLawful`). Let clients of the consumers' parent and of the
  -- workspace be made. After an `EnsureWorkspaceSetup` that succeeds every binding of the
  -- provisioner is in the workspace; its namespace, its service account and its token secret are
  -- there, and a role binding that gives cluster-admin to the service account alone; and the
  -- workspace is marked for scoped credentials.
  pub ensure_workspace_setup_complete :
      (w : W) (tasks : List Task)
      → (ensure_workspace_setup U S P name w).0 ≡ ok tasks
      → (AllBound S L P client P.bindings (ensure_workspace_setup U S P name w).1
          × IsProvisioned S L client (ensure_workspace_setup U S P name w).1)
        × IsScoped S L consumers name (ensure_workspace_setup U S P name w).1
  ensure_workspace_setup_complete w tasks done =
      let (bound, credentials) =
        (ensure_workspace_setup-All S (lawful_settles S L) client (InSetup-ne-kubernetes client) U P
            name consumers consumers_found client_found).at
          w tt tasks done in
      (
        (
          AllThere-AllBound S L (λ v. v) client P P.bindings _ bound,
          AllCredentials-IsProvisioned S L (λ v. v) client _ credentials,
        ),
        setup-IsScoped.at w tt tasks done,
      )
