-- ===== src/Provisioner/Settles/Lawful.antt =====
-- Lawful servers with one client at a time: the setup of a workspace, in the words of what they hold.
use dbaas.Provisioner.Stays.Prepared.{InSetup-ne-kubernetes}
use dbaas.Prelude.{◌≢◌, inl, List, [], ◌∷◌, none, ◌≡◌, ◌∙◌}
use dbaas.Exec.{ok}
use dbaas.Cluster.{Server, Endpoint, kubernetes}
use dbaas.Cluster.Lawful.{IsLawful}
use dbaas.Provisioner.Bindings.{ensure_workspace_bindings}
use dbaas.Provisioner.Bindings.Laws.{AllBound}
use dbaas.Provisioner.Credentials.Laws.{IsProvisioned}
use dbaas.Provisioner.Env.{Provisioner, WorkspaceBinding}
use dbaas.Provisioner.Settles.{Settles}
use dbaas.Provisioner.Settles.Setup.{AllThere, AllCredentials, ensure_bindings-AllThere}
use dbaas.Provisioner.Stays.{Kept, kept}

module _ {W : Type 0} (S : Server W) (L : IsLawful S) where
  -- A place that a read found empty stays so up to the next request.
  pub lawful_settles :
      Settles S (Kept S L) (λ k key w. L.find k key w ≡ none) (λ k key. k ≢ kubernetes)
  lawful_settles = record {
    respects = λ k key here. kept S L k key here;
    get_ok-There =
        λ k key w x here done good. (x, L.find-get k key w k key ∙ L.get_ok k key w x done, good);
    get_not_found-Open =
        λ k key w e here done gone. L.find-get k key w k key ∙ L.get_not_found k key w e done gone;
    create_ok-There = λ k key x w here good done. (x, L.create_ok k key x w done, good);
    create_already_exists-There = λ k key x w e here fresh absent failed exists.
        absurd (L.create_already_exists k key x w e failed exists absent);
    update_ok-There = λ k key x w here good done. (x, L.update_ok k key x w (inl here) done, good);
  }

  -- The two ways to say that the setup is there, for worlds that have one of the servers in them.
  module _ {V : Type 0} (held : V → W) (client : Endpoint) where
    pub AllThere-AllBound :
        (P : Provisioner) (bs : List WorkspaceBinding) (v : V)
        → AllThere (λ k key v. Kept S L k key (held v)) client bs v
        → AllBound S L P client bs (held v)
    AllThere-AllBound P [] v h = tt
    AllThere-AllBound P (b ∷ bs) v ((x, there, _), h) = ((x, there), AllThere-AllBound P bs v h)

    pub AllCredentials-IsProvisioned :
        (v : V)
        → AllCredentials (λ k key v. Kept S L k key (held v)) client v
        → IsProvisioned S L client (held v)
    AllCredentials-IsProvisioned v ((((a, ha, _), (b, hb, _)), (c, hc, _)), d) =
        ((((a, ha), (b, hb)), (c, hc)), d)

  -- Over servers that are lawful (`IsLawful`). If `ensureWorkspaceBindings` succeeds, the
  -- workspace has an APIBinding for every binding of the provisioner.
  pub ensure_workspace_bindings_complete :
      (P : Provisioner) (client : Endpoint) (w : W)
      → (ensure_workspace_bindings S P client w).0 ≡ ok tt
      → AllBound S L P client P.bindings (ensure_workspace_bindings S P client w).1
  unfolding ensure_workspace_bindings
  ensure_workspace_bindings_complete P client w done =
      AllThere-AllBound (λ v. v) client P P.bindings _
        ((ensure_bindings-AllThere S lawful_settles client (InSetup-ne-kubernetes client) P
            P.bindings {R = λ w. Unit {0}}).at
          w tt tt done)
