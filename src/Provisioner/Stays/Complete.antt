-- ===== src/Provisioner/Stays/Complete.antt =====
-- What the loop of `ReconcileWorkspaceBindings` leaves in the workspaces.
use dbaas.Provisioner.Stays.Prepared.{InSetup-ne-kubernetes}
use dbaas.Prelude.{
  Bool, true, false, ◌||◌, ◌&&◌, List, [], ◌∷◌, ◌++◌, ◌≡◌, ◌⊎◌, inl, inr, ◌∙◌, refl, sym, ap, arith,
}
use mathlib.Core.Path.{subst}
use dbaas.Prelude.Text.{Text, ◌==◌, eq→≡}
use dbaas.Exec.{Result, ok, err, pure, attempt}
use dbaas.Exec.Keeps.{Keeps, Keeps-×}
use dbaas.Exec.Ensures.{
  Ensures, Ensures-weaken, Ensures-bind, Ensures-if, Ensures-pure, Ensures-also, Ensures-any,
}
use dbaas.Url.{UrlPackage}
use dbaas.Cluster.{Server, Endpoint, Workspace, workspace}
use dbaas.Cluster.Lawful.{IsLawful}
use dbaas.Provisioner.Bindings.Laws.{AllBound}
use dbaas.Provisioner.Credentials.Laws.{IsProvisioned, IsScoped}
use dbaas.Provisioner.Env.{Provisioner, client_for_workspace, consumer_path, cluster_key}
use dbaas.Provisioner.Stays.{kept}
use dbaas.Provisioner.Stays.Prepared.{Keeps-prepared}
use dbaas.Provisioner.Stays.Loop.{Keeps-set_up_all}
use dbaas.Provisioner.Workspaces.{
  Task, headlamp_task, ensure_workspace_setup, is_skipped, tasks_of, set_up, set_up_all,
  set_up_listed, reconcile_workspace_bindings,
}
use dbaas.Provisioner.Workspaces.Laws.{ensure_workspace_setup_complete}

-- A task that adds the workspace to Headlamp is among the tasks.
unfoldable pub is_started : Text → List Task → Bool
is_started name [] = false
is_started name (headlamp_task n add ∷ tasks) = (add && n == name) || is_started name tasks

is_started-append :
    (name : Text) (s t : List Task)
    → is_started name (s ++ t) ≡ (is_started name s || is_started name t)
unfolding is_started
is_started-append name [] t = refl
is_started-append name (headlamp_task n add ∷ s) t = ground (arith, is_started-append name s t)

true_of_or : (a b : Bool) → (a || b) ≡ true → (a ≡ true) ⊎ (b ≡ true)
true_of_or true b h = inl refl
true_of_or false b h = inr h

module _ (U : UrlPackage) {W : Type 0} (S : Server W) (P : Provisioner) (name : Text)
    (Complete : W → Type 0)
    (setup_complete : (w : W) (tasks : List Task)
      → (ensure_workspace_setup U S P name w).0 ≡ ok tasks
      → Complete (ensure_workspace_setup U S P name w).1)
    (keeps : (ws : List Workspace) → Keeps Complete (set_up_all U S P ws)) where
  abbrev IfStarted : List Task → W → Type 0
  IfStarted tasks w = is_started name tasks ≡ true → Complete w

  setup_task :
      (n : Text)
      → Ensures
          (λ _. Unit {0})
          (ensure_workspace_setup U S P n)
          (λ tasks w. tasks ≡ headlamp_task n true ∷ [])
  unfolding ensure_workspace_setup
  setup_task n = Ensures-bind _ _ (Ensures-any _) (λ _. Ensures-bind _ _ (Ensures-any _) (λ _.
      Ensures-bind _ _ (Ensures-any _) (λ _.
        Ensures-bind _ _ (Ensures-any _)
          (λ _. Ensures-bind _ _ (Ensures-any _) (λ _. Ensures-pure _ (λ w h. refl))))))

  named_lem :
      (n : Text) (tasks : List Task)
      → tasks ≡ headlamp_task n true ∷ []
      → is_started name tasks ≡ true
      → n ≡ name
  unfolding is_started
  named_lem n tasks e started = eq→≡ n name (ground (arith, ap (is_started name) e))

  setup-IfStarted : (n : Text) → Ensures (λ _. Unit {0}) (ensure_workspace_setup U S P n) IfStarted
  setup-IfStarted n = record {
    at = λ w h tasks e started.
        at_name n (named_lem n tasks ((setup_task n).at w h tasks e) started) w tasks e;
  }
    where
      at_name :
          (n : Text)
          → n ≡ name
          → (w : W) (tasks : List Task) → (ensure_workspace_setup U S P n w).0 ≡ ok tasks
          → Complete (ensure_workspace_setup U S P n w).1
      at_name n same =
          subst
            (λ x.
              (w : W) (tasks : List Task)
              → (ensure_workspace_setup U S P x w).0 ≡ ok tasks
              → Complete (ensure_workspace_setup U S P x w).1)
            (sym same) setup_complete

  tasks_of-IfStarted :
      (r : Result (List Task))
      → Ensures
          (λ w. (tasks : List Task) → r ≡ ok tasks → IfStarted tasks w)
          (pure (tasks_of U S P r))
          IfStarted
  unfolding tasks_of is_started
  tasks_of-IfStarted (ok tasks) = Ensures-pure tasks (λ w h. h tasks refl)
  tasks_of-IfStarted (err e) = Ensures-pure [] (λ w h started. cc)

  set_up-IfStarted : (v : Workspace) → Ensures (λ _. Unit {0}) (set_up U S P v) IfStarted
  unfolding set_up is_started attempt
  set_up-IfStarted v =
      Ensures-if (is_skipped U S P v) _ _ (λ _. Ensures-pure [] (λ w h started. cc))
        (λ _.
          Ensures-bind _ _
            (record { at = λ w h r e tasks d. (setup-IfStarted v.meta.name).at w tt tasks (cc) })
            tasks_of-IfStarted)

  Keeps-IfStarted :
      (tasks : List Task) (ws : List Workspace) → Keeps (IfStarted tasks) (set_up_all U S P ws)
  Keeps-IfStarted tasks ws = record { at = λ w h started. (keeps ws).at w (h started) }

  either :
      (first more : List Task) (w : W)
      → IfStarted first w × IfStarted more w
      → (is_started name first || is_started name more) ≡ true
      → Complete w
  either first more w h started =
      elim (true_of_or (is_started name first) (is_started name more) started) [
        | inl a ↦ h.0 a
        | inr b ↦ h.1 b
      ]

  set_up_all-IfStarted :
      (ws : List Workspace) → Ensures (λ _. Unit {0}) (set_up_all U S P ws) IfStarted
  unfolding set_up_all is_started
  set_up_all-IfStarted [] = Ensures-pure [] (λ w h started. cc)
  set_up_all-IfStarted (v ∷ ws) = Ensures-bind _ _ (set_up-IfStarted v) (λ first.
      Ensures-bind _ _
        (Ensures-also (Keeps-IfStarted first ws)
          (Ensures-weaken (λ w h. tt) (set_up_all-IfStarted ws)))
        (λ more. Ensures-pure _ (λ w h started.
          either first more w h (sym (is_started-append name first more) ∙ started))))

  set_up_listed-IfStarted :
      (r : Result (List Workspace)) → Ensures (λ _. Unit {0}) (set_up_listed U S P r) IfStarted
  unfolding set_up_listed is_started
  set_up_listed-IfStarted (err e) = Ensures-pure [] (λ w h started. cc)
  set_up_listed-IfStarted (ok ws) = set_up_all-IfStarted ws

  pub reconcile-IfStarted : Ensures (λ _. Unit {0}) (reconcile_workspace_bindings U S P) IfStarted
  unfolding reconcile_workspace_bindings
  reconcile-IfStarted = Ensures-bind _ _ (Ensures-any _) set_up_listed-IfStarted

module _ (U : UrlPackage) {W : Type 0} (S : Server W) (L : IsLawful S) (P : Provisioner)
    (name : Text) (consumers client : Endpoint)
    (consumers_found : client_for_workspace U S P P.consumers_workspace ≡ ok consumers)
    (client_found : client_for_workspace U S P (consumer_path U S P name) ≡ ok client) where
  -- Over servers that are lawful (`IsLawful`). Let clients of the consumers' parent and of a
  -- workspace be made. If `ReconcileWorkspaceBindings` starts the Headlamp task of that workspace,
  -- then at its end every binding of the provisioner is in the workspace, its scoped credentials
  -- are there, and it is marked for them, whatever errors the setup of other workspaces met before
  -- or behind it.
  pub reconcile_workspace_bindings_complete :
      (w : W) (tasks : List Task)
      → (reconcile_workspace_bindings U S P w).0 ≡ ok tasks
      → is_started name tasks ≡ true
      → (AllBound S L P client P.bindings (reconcile_workspace_bindings U S P w).1
          × IsProvisioned S L client (reconcile_workspace_bindings U S P w).1)
        × IsScoped S L consumers name (reconcile_workspace_bindings U S P w).1
  reconcile_workspace_bindings_complete w tasks e started =
      (reconcile-IfStarted U S P name _
          (ensure_workspace_setup_complete U S L P name consumers client consumers_found
            client_found)
          (λ ws.
            Keeps-×
              (Keeps-prepared S L _ P client (λ k key here.
                Keeps-set_up_all S (kept S L k key (InSetup-ne-kubernetes client k key here)) U P
                  ws))
              (Keeps-set_up_all S (kept S L workspace (cluster_key consumers name) (ground arith)) U
                P ws))).at
        w tt tasks e started
