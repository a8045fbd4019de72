-- ===== src/Provisioner/Settles/Setup.antt =====
-- `EnsureWorkspaceSetup` over what the answers to its requests say.
use dbaas.Prelude.{List, [], ◌∷◌, ◌≡◌, refl}
use dbaas.Prelude.Text.{Text}
use dbaas.Exec.{ok, Exec}
use dbaas.Exec.Keeps.{Keeps, Keeps-×}
use dbaas.Exec.Ensures.{
  Ensures, Ensures-bind, Ensures-pure, Ensures-or_wrap, Ensures-also, Ensures-Keeps, Ensures-known,
  Ensures-any,
}
use dbaas.Url.{UrlPackage}
use dbaas.Cluster.{
  Server, Endpoint, Key, Kind, api_binding, name_space, service_account, secret,
  cluster_role_binding,
}
use dbaas.Cluster.Respects.{Respects}
use dbaas.Provisioner.Bindings.{ensure_bindings, ensure_workspace_bindings}
use dbaas.Provisioner.Credentials.{ensure_credentials, ensure_scoped_workspace_credentials}
use dbaas.Provisioner.Env.{
  Provisioner, WorkspaceBinding, client_for_workspace, consumer_path, workspace_default_namespace,
  workspace_service_account_name, workspace_token_secret_name, workspace_cluster_role_bind_name,
  cluster_key, default_key,
}
use dbaas.Provisioner.Reads.{Keeps-workspace_service_account_token}
use dbaas.Provisioner.Settles.{Settles}
use dbaas.Provisioner.Settles.Steps.{
  ensure_binding-There, ensure_workspace_namespace-There, ensure_service_account-There,
  ensure_token_secret-There, ensure_admin_cluster_role_binding-There,
}
use dbaas.Provisioner.Stays.{
  Fresh, Test, Keeps-ensure_bindings, Keeps-ensure_service_account, Keeps-ensure_token_secret,
  Keeps-ensure_admin_cluster_role_binding, Keeps-ensure_credentials, Keeps-mark,
}
use dbaas.Provisioner.Stays.Prepared.{InSetup}
use dbaas.Provisioner.Workspaces.{consumers_client, ensure_workspace_setup}

module _ {W : Type 0} (There : Kind → Key → W → Type 0) (client : Endpoint) where
  -- All bindings are there.
  abbrev pub AllThere : List WorkspaceBinding → W → Type 0
  AllThere [] w = Unit
  AllThere (b ∷ bs) w = There api_binding (cluster_key client b.name) w × AllThere bs w

  abbrev First : W → Type 0
  First w =
      There name_space (cluster_key client workspace_default_namespace) w
      × There service_account (default_key client workspace_service_account_name) w

  -- All objects of the credentials are there.
  abbrev pub AllCredentials : W → Type 0
  AllCredentials w =
      (First w × There secret (default_key client workspace_token_secret_name) w)
      × There cluster_role_binding (cluster_key client workspace_cluster_role_bind_name) w

  -- A step keeps them all, if it keeps each.
  module _ {A : Type 0} (m : Exec W A)
      (keeps : (k : Kind) (key : Key) → InSetup client k key → Keeps (There k key) m) where
    pub Keeps-AllThere : (bs : List WorkspaceBinding) → Keeps (AllThere bs) m
    Keeps-AllThere [] = record { at = λ w h. h }
    Keeps-AllThere (b ∷ bs) = Keeps-× (keeps api_binding _ (tt, refl)) (Keeps-AllThere bs)

    pub Keeps-AllCredentials : Keeps AllCredentials m
    Keeps-AllCredentials =
        Keeps-×
          (Keeps-× (Keeps-× (keeps name_space _ (tt, refl)) (keeps service_account _ (tt, refl)))
            (keeps secret _ (tt, refl)))
          (keeps cluster_role_binding _ (tt, refl))

module _ {W : Type 0} (S : Server W) {There Open : Kind → Key → W → Type 0}
    {In : Kind → Key → Type 0} (Q : Settles S There Open In) (client : Endpoint)
    (inside : (k : Kind) (key : Key) → InSetup client k key → In k key) where
  respects : (k : Kind) (key : Key) → InSetup client k key → Respects S Fresh Test (There k key)
  respects k key i = Q.respects k key (inside k key i)

  pub ensure_bindings-AllThere :
      (P : Provisioner) (bs : List WorkspaceBinding) {R : W → Type 0}
      → Ensures R (ensure_bindings S P client bs) (λ _. AllThere There client bs)
  unfolding ensure_bindings
  ensure_bindings-AllThere P [] = Ensures-any _
  ensure_bindings-AllThere P (b ∷ bs) =
      Ensures-bind _ _ (ensure_binding-There S Q P client b (inside api_binding _ (tt, refl))) (λ _.
        Ensures-also (Keeps-ensure_bindings S (respects api_binding _ (tt, refl)) client P bs)
          (ensure_bindings-AllThere P bs))

  ensure_credentials-AllCredentials :
      {R : W → Type 0} (U : UrlPackage) (P : Provisioner)
      → Ensures R (ensure_credentials U S P client) (λ _. AllCredentials There client)
  unfolding ensure_credentials
  ensure_credentials-AllCredentials U P =
      Ensures-bind _ _
        (ensure_workspace_namespace-There S Q client (inside name_space _ (tt, refl)))
        (λ _.
          Ensures-bind _ _
            (Ensures-also (Keeps-ensure_service_account S (respects name_space _ (tt, refl)) client)
              (ensure_service_account-There S Q client (inside service_account _ (tt, refl))))
            (λ _.
              Ensures-bind _ _
                (Ensures-also
                  (Keeps-× (Keeps-ensure_token_secret S (respects name_space _ (tt, refl)) client)
                    (Keeps-ensure_token_secret S (respects service_account _ (tt, refl)) client))
                  (ensure_token_secret-There S Q client (inside secret _ (tt, refl))))
                (λ _.
                  Ensures-also
                    (Keeps-×
                      (Keeps-×
                        (Keeps-ensure_admin_cluster_role_binding S
                          (respects name_space _ (tt, refl)) client)
                        (Keeps-ensure_admin_cluster_role_binding S
                          (respects service_account _ (tt, refl)) client))
                      (Keeps-ensure_admin_cluster_role_binding S (respects secret _ (tt, refl))
                        client))
                    (ensure_admin_cluster_role_binding-There S Q client
                      (inside cluster_role_binding _ (tt, refl))))))

  module _ (U : UrlPackage) (P : Provisioner) (name : Text) (consumers : Endpoint)
      (consumers_found : client_for_workspace U S P P.consumers_workspace ≡ ok consumers)
      (client_found : client_for_workspace U S P (consumer_path U S P name) ≡ ok client) where
    abbrev All : W → Type 0
    All w = AllThere There client P.bindings w × AllCredentials There client w

    Keeps-All :
        {A : Type 0} (m : Exec W A)
        → ((k : Kind) (key : Key) → InSetup client k key → Keeps (There k key) m)
        → Keeps All m
    Keeps-All m f =
        Keeps-× (Keeps-AllThere There client m f P.bindings) (Keeps-AllCredentials There client m f)

    scoped-All :
        Ensures
          (AllThere There client P.bindings)
          (ensure_scoped_workspace_credentials U S P (consumer_path U S P name))
          (λ _. All)
    unfolding ensure_scoped_workspace_credentials
    scoped-All = Ensures-known _ _ _ client _ client_found (
        Ensures-bind _ _
          (Ensures-also
            (Keeps-AllThere There client _
              (λ k key i. Keeps-ensure_credentials S (respects k key i) client U P) P.bindings)
            (ensure_credentials-AllCredentials U P))
          (λ _.
            Ensures-bind _ _
              (Ensures-Keeps _ (
                Keeps-All _ (λ k key i.
                  Keeps-workspace_service_account_token S (respects k key i).reads U P _)))
              (λ _. Ensures-pure tt (λ w h. h))))

    -- Whatever else the world of the server does between the requests.
    pub ensure_workspace_setup-All :
        Ensures
          (λ _. Unit {0})
          (ensure_workspace_setup U S P name)
          (λ _ w. AllThere There client P.bindings w × AllCredentials There client w)
    unfolding ensure_workspace_setup consumers_client ensure_workspace_bindings
    ensure_workspace_setup-All = Ensures-known _ _ _ consumers _ consumers_found (
        Ensures-known _ _ _ client _ client_found (
          Ensures-bind _ _ (Ensures-or_wrap _ _ _ (ensure_bindings-AllThere P P.bindings)) (λ _.
            Ensures-bind _ _ (Ensures-or_wrap _ _ _ scoped-All) (λ _.
              Ensures-bind _ _
                (Ensures-or_wrap _ _ _ (
                  Ensures-Keeps _
                    (Keeps-All _ (λ k key i. Keeps-mark S (respects k key i) consumers name))))
                (λ _. Ensures-pure _ (λ w h. h))))))
