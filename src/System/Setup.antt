-- ===== src/System/Setup.antt =====
-- The setup of a workspace while all other activities go on.
use dbaas.Prelude.{ℕ, true, List, ◌++◌, ◌≡◌}
use dbaas.Prelude.Text.{Text}
use dbaas.Exec.{Result, ok}
use dbaas.Exec.Keeps.{Keeps, Keeps-×}
use dbaas.Cluster.{Server, Key, Endpoint, RestConfig, Kind, Workspace}
use dbaas.Cluster.Calls.{All, All-both, All-newest, All-oldest, Call, run_calls}
use dbaas.Cluster.Lawful.{IsLawful}
use dbaas.Provisioner.Bindings.Laws.{AllBound}
use dbaas.Provisioner.Credentials.Laws.{IsProvisioned}
use dbaas.Provisioner.Env.{client_for_workspace, consumer_path}
use dbaas.Provisioner.Settles.Setup.{
  AllThere, AllCredentials, Keeps-AllThere, Keeps-AllCredentials, ensure_workspace_setup-All,
}
use dbaas.Provisioner.Settles.Lawful.{AllThere-AllBound, AllCredentials-IsProvisioned}
use dbaas.Provisioner.Stays.Complete.{is_started, reconcile-IfStarted}
use dbaas.Provisioner.Stays.Loop.{Keeps-set_up_all}
use dbaas.Provisioner.Stays.Prepared.{InSetup, Keeps-prepared}
use dbaas.Provisioner.Workspaces.{Task, set_up_all, reconcile_workspace_bindings}
use dbaas.System.{IsSafe, Spares, IsHarmless, Setting, Moment}
use dbaas.System.Interrupted.{interrupted, There, others_settle, respects_others}
use dbaas.System.Kept.{Keeps-Kept, run_calls_rule}
use dbaas.System.Safe.{Moment-AllSafe}
use dbaas.Exec.Ensures.{Ensures}

-- What the servers get between two moments.
pub data Between (E : Setting) (new_client : RestConfig → Result (Unit {0}))
    : List Call → Type 0 where
  between_moments :
      (newer calls older : List Call)
      → Moment E new_client (newer ++ (calls ++ older))
      → Between E new_client calls

module _ {W : Type 0} (S : Server W) (L : IsLawful S) (E : Setting) (client : Endpoint) where
  Between-harmless :
      (calls : List Call)
      → Between E S.new_client calls
      → All (Spares L client) calls
      → All (IsHarmless L client) calls
  Between-harmless calls (between_moments newer _ older moment) =
      All-both IsSafe (Spares L client) calls (
        All-newest IsSafe calls older (
          All-oldest IsSafe newer (calls ++ older)
            (Moment-AllSafe E S.new_client (newer ++ (calls ++ older)) moment)))

  module _ (others : ℕ → List Call) (between : (n : ℕ) → Between E S.new_client (others n))
      (spares : (n : ℕ) → All (Spares L client) (others n)) where
    harmless : (n : ℕ) → All (IsHarmless L client) (others n)
    harmless n = Between-harmless (others n) (between n) (spares n)

    module _ (name : Text) (consumers : Endpoint)
        (consumers_found : client_for_workspace E.url S E.provisioner
            E.provisioner.consumers_workspace
          ≡ ok consumers)
        (client_found : client_for_workspace E.url S E.provisioner
            (consumer_path E.url S E.provisioner name)
          ≡ ok client) where
      -- The periodic work, from a world on.
      abbrev pub round : W → Result (List Task) × (W × ℕ)
      round w = reconcile_workspace_bindings E.url (interrupted S others) E.provisioner (w, 0)

      abbrev IsReady : W × ℕ → Type 0
      IsReady v =
          AllThere (There S L client others harmless) client E.provisioner.bindings v
          × AllCredentials (There S L client others harmless) client v

      keeps :
          (ws : List Workspace) (k : Kind) (key : Key)
          → InSetup client k key
          → Keeps
              (There S L client others harmless k key)
              (set_up_all E.url (interrupted S others) E.provisioner ws)
      keeps ws k key here =
          Keeps-set_up_all (interrupted S others)
            (respects_others S L client others harmless k key here) E.url E.provisioner ws

      round-IsReady :
          Ensures
            (λ _. Unit {0})
            (reconcile_workspace_bindings E.url (interrupted S others) E.provisioner)
            (λ tasks v. is_started name tasks ≡ true → IsReady v)
      unfolding client_for_workspace
      round-IsReady =
          reconcile-IfStarted E.url (interrupted S others) E.provisioner name IsReady
            (λ w.
              (ensure_workspace_setup-All (interrupted S others)
                  (others_settle S L client others harmless) client (λ k key here. here) E.url
                  E.provisioner name consumers consumers_found client_found).at
                w tt)
            (λ ws.
              Keeps-× (Keeps-AllThere _ client _ (keeps ws) E.provisioner.bindings)
                (Keeps-AllCredentials _ client _ (keeps ws)))

      -- Over servers that are lawful (`IsLawful`). Let clients of the consumers' parent and of the
      -- workspace be made. Let `ReconcileWorkspaceBindings` run while, between any two of its
      -- requests, the servers get requests of other activities of the three processes, in any
      -- order and number, and let more such requests follow its end. Let none of these requests of
      -- the others delete the workspace or what holds it, and none apply a document of a manifest
      -- at its endpoint. If the run starts the Headlamp task of the workspace, then afterwards
      -- every binding of the provisioner is in the workspace, its namespace, service account and
      -- token secret are there, and a role binding that gives cluster-admin to the service account
      -- alone.
      pub reconcile_workspace_bindings_among_others :
          (w : W) (tasks : List Task) (later : List Call)
          → (round w).0 ≡ ok tasks
          → is_started name tasks ≡ true
          → Between E S.new_client later
          → All (Spares L client) later
          → AllBound S L E.provisioner client E.provisioner.bindings
              (run_calls S later (round w).1.0)
            × IsProvisioned S L client (run_calls S later (round w).1.0)
      reconcile_workspace_bindings_among_others w tasks later done started after later_spares =
          let (bound, credentials) = round-IsReady.at (w, 0) tt tasks done started in
          run_calls_rule S L client _
            (λ c good.
              Keeps-prepared S L _ E.provisioner client
                (λ k key here. Keeps-Kept S L client k key here c good))
            later _ (Between-harmless later after later_spares)
            (
              AllThere-AllBound S L (λ v. v.0) client E.provisioner E.provisioner.bindings
                  (round w).1 bound,
              AllCredentials-IsProvisioned S L (λ v. v.0) client (round w).1 credentials,
            )
