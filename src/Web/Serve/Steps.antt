-- ===== src/Web/Serve/Steps.antt =====
-- The requests to the web server and the rounds of the periodic work, over what the requests to the
-- API servers keep.
use dbaas.Prelude.{refl, [], ◌∷◌, ◌≡◌}
use dbaas.Prelude.Text.{Text}
use dbaas.Exec.{Result, ok, err}
use dbaas.Exec.Keeps.{
  Keeps, Keeps-bind, Keeps-attempt, Keeps-if, Keeps-or_wrap, Keeps-lift, Keeps-pure, Keeps-raise,
  Keeps-bind_lifted,
}
use dbaas.Url.{UrlPackage}
use dbaas.Cluster.{Server, Endpoint, workspace}
use dbaas.Cluster.Respects.{Respects}
use dbaas.Provisioner.Env.{Provisioner, client_for_workspace, cluster_key}
use dbaas.Provisioner.Headlamp.{MapOrder}
use dbaas.Provisioner.Host.{NetPackage}
use dbaas.Provisioner.Kubeconfig.{Config}
use dbaas.Provisioner.Stays.{Fresh, Test}
use dbaas.Provisioner.Stays.Loop.{Keeps-reconcile_workspace_bindings, Keeps-reconcile_headlamp}
use dbaas.Provisioner.Workspaces.{
  consumers_client, provision_workspace, workspace_created, delete_workspace, universal,
}
use dbaas.Web.Forwarded.{Request}
use dbaas.Web.Handlers.{WebPackage, handle_create_workspace, handle_delete_workspace}
use dbaas.Web.Serve.{
  Route, to_index, to_admin_kubeconfig, to_create, to_kubeconfig, to_delete, nowhere, dispatch,
  serve, reconcile_round, route,
}
use dbaas.Web.Serve.Reads.{
  Keeps-handle_index, Keeps-handle_admin_kubeconfig, Keeps-handle_kubeconfig,
}

module _ (N : NetPackage) (G : WebPackage) (U : UrlPackage) (write : Config → Result Text)
    {W : Type 0} {K : W → Type 0} (S : Server W) (P : Provisioner) (Q : Respects S Fresh Test K)
    (r : Request)
    (deletes : (name : Text) (client : Endpoint)
      → route r.method r.path ≡ to_delete name
      → client_for_workspace U S P P.consumers_workspace ≡ ok client
      → Keeps K (S.delete workspace (cluster_key client name))) where
  created_rule : (name : Text) (r : Result (Unit {0})) → Keeps K (workspace_created U S P name r)
  unfolding workspace_created
  created_rule name (ok _) = Keeps-pure _
  created_rule name (err e) = Keeps-if _ _ _ (Keeps-pure _) (Keeps-raise _)

  provision_rule : (name : Text) → Keeps K (provision_workspace U S P name)
  unfolding provision_workspace consumers_client
  provision_rule name = Keeps-bind _ _ (Keeps-or_wrap _ _ _ (Keeps-lift _)) (λ client.
      Keeps-bind _ (workspace_created U S P name)
        (Keeps-attempt _ (Q.keeps_create workspace (cluster_key client name) (universal name) tt))
        (created_rule name))

  create_rule : (name : Text) → Keeps K (handle_create_workspace N G U write S P name)
  unfolding handle_create_workspace
  create_rule [] = Keeps-pure _
  create_rule (c ∷ name) =
      Keeps-bind _ _ (Keeps-attempt _ (provision_rule (c ∷ name))) (λ _. Keeps-pure _)

  delete_rule :
      (name : Text)
      → route r.method r.path ≡ to_delete name
      → Keeps K (handle_delete_workspace N G U write S P name)
  unfolding handle_delete_workspace delete_workspace consumers_client
  delete_rule name reached =
      Keeps-bind _ _
        (Keeps-attempt _ (
          Keeps-bind_lifted _ _ _ _ (λ client known.
            Keeps-bind _ _
              (Keeps-or_wrap "deleting workspace %q: %w" (name ∷ []) _
                (deletes name client reached known))
              (λ _. Keeps-pure _))))
        (λ _. Keeps-pure _)

  dispatch_rule : (t : Route) → route r.method r.path ≡ t → Keeps K (dispatch N G U write S P r t)
  unfolding dispatch
  dispatch_rule to_index reached = Keeps-handle_index N G U write S P Q.reads r
  dispatch_rule to_admin_kubeconfig reached =
      Keeps-handle_admin_kubeconfig N G U write S P Q.reads r
  dispatch_rule to_create reached = create_rule r.form_name
  dispatch_rule (to_kubeconfig name) reached =
      Keeps-handle_kubeconfig N G U write S P Q.reads r name
  dispatch_rule (to_delete name) reached = delete_rule name reached
  dispatch_rule nowhere reached = Keeps-pure _

  pub Keeps-serve : Keeps K (serve N G U write S P r)
  unfolding serve
  Keeps-serve = dispatch_rule (route r.method r.path) refl

module _ (load : Text → Result Config) (write : Config → Result Text) (O : MapOrder)
    (U : UrlPackage) {W : Type 0} {K : W → Type 0} (S : Server W) (P : Provisioner)
    (Q : Respects S Fresh Test K) where
  pub Keeps-reconcile_round : (now : Text) → Keeps K (reconcile_round load write O U S P now)
  unfolding reconcile_round
  Keeps-reconcile_round now =
      Keeps-bind _ _ (Keeps-reconcile_workspace_bindings S Q U P) (λ _.
        Keeps-bind _ _ (Keeps-reconcile_headlamp S Q U P load write O now) (λ _. Keeps-pure _))
