-- ===== src/Web/Serve/Reads.antt =====
-- The requests with GET or HEAD.
use dbaas.Prelude.{true, Option, none, some, ◌≡◌, refl, Bool-cases, inl, inr}
use dbaas.Prelude.Text.{Text, codes, ◌==◌}
use dbaas.Exec.{Result, ok, err}
use dbaas.Exec.Keeps.{Keeps, Keeps-bind, Keeps-attempt, Keeps-if, Keeps-pure}
use dbaas.Url.{UrlPackage}
use dbaas.Cluster.{Server, Key, Kind, Workspace}
use dbaas.Cluster.Lawful.{IsLawful}
use dbaas.Cluster.Lawful.Frame.{frame_reads}
use dbaas.Cluster.Respects.{Reads}
use dbaas.Provisioner.Env.{Provisioner}
use dbaas.Provisioner.Host.{NetPackage}
use dbaas.Provisioner.Kubeconfig.{Config}
use dbaas.Provisioner.Reads.{
  Keeps-get_workspace, Keeps-list_workspaces, Keeps-kubeconfig_bytes, Keeps-admin_kubeconfig_bytes,
}
use dbaas.Web.Forwarded.{Request}
use dbaas.Web.Handlers.{
  WebPackage, handle_index, admin_answer, handle_admin_kubeconfig, kubeconfig_answer,
  workspace_answer, handle_kubeconfig,
}
use dbaas.Web.Serve.{get_below, get_route, route, is_get, dispatch, serve}

module _ (N : NetPackage) (G : WebPackage) (U : UrlPackage) (write : Config → Result Text)
    {W : Type 0} (S : Server W) (P : Provisioner) where
  module _ {K : W → Type 0} (Q : Reads S K) where
    pub Keeps-handle_index : (r : Request) → Keeps K (handle_index N G U write S P r)
    unfolding handle_index
    Keeps-handle_index r =
        Keeps-bind _ _ (Keeps-attempt _ (Keeps-list_workspaces S Q U P)) (λ _. Keeps-pure _)

    admin_rule : (r : Result Text) → Keeps K (admin_answer N G U write S P r)
    unfolding admin_answer
    admin_rule (err e) = Keeps-pure _
    admin_rule (ok base_url) =
        Keeps-bind _ _ (Keeps-attempt _ (Keeps-admin_kubeconfig_bytes S Q U P write base_url))
          (λ _. Keeps-pure _)

    pub Keeps-handle_admin_kubeconfig :
        (r : Request) → Keeps K (handle_admin_kubeconfig N G U write S P r)
    unfolding handle_admin_kubeconfig
    Keeps-handle_admin_kubeconfig r = admin_rule _

    kubeconfig_rule :
        (name : Text) (w : Workspace) (r : Result Text)
        → Keeps K (kubeconfig_answer N G U write S P name w r)
    unfolding kubeconfig_answer
    kubeconfig_rule name w (err e) = Keeps-pure _
    kubeconfig_rule name w (ok base_url) =
        Keeps-bind _ _ (Keeps-attempt _ (Keeps-kubeconfig_bytes S Q U P write w base_url))
          (λ _. Keeps-pure _)

    workspace_rule :
        (r : Request) (name : Text) (a : Result Workspace)
        → Keeps K (workspace_answer N G U write S P r name a)
    unfolding workspace_answer
    workspace_rule r name (err e) = Keeps-pure _
    workspace_rule r name (ok w) = Keeps-if _ _ _ (Keeps-pure _) (kubeconfig_rule name w _)

    pub Keeps-handle_kubeconfig :
        (r : Request) (name : Text) → Keeps K (handle_kubeconfig N G U write S P r name)
    unfolding handle_kubeconfig
    Keeps-handle_kubeconfig r name =
        Keeps-bind _ _ (Keeps-attempt _ (Keeps-get_workspace S Q U P name)) (workspace_rule r name)

    below_rule :
        (r : Request) (s : Option (Text × Text))
        → Keeps K (dispatch N G U write S P r (get_below s))
    unfolding get_below dispatch
    below_rule r none = Keeps-handle_index r
    below_rule r (some (name, action)) = elim (Bool-cases (action == codes "kubeconfig")) [
      | inl e ↦ rw e (Keeps-handle_kubeconfig r name)
      | inr e ↦ rw e (Keeps-handle_index r)
    ]

    get_rule : (r : Request) (path : Text) → Keeps K (dispatch N G U write S P r (get_route path))
    unfolding get_route dispatch
    get_rule r path = elim (Bool-cases (path == codes "/api/admin.kubeconfig")) [
      | inl e ↦ rw e (Keeps-handle_admin_kubeconfig r)
      | inr e ↦ rw e (below_rule r _)
    ]

  -- Over servers that are lawful (`IsLawful`). A request with the method GET or HEAD, on whatever
  -- path, changes no object of the servers.
  pub serve-get :
      (L : IsLawful S) (r : Request) (w : W) (k : Kind) (key : Key)
      → is_get r.method ≡ true
      → L.find k key (serve N G U write S P r w).1 ≡ L.find k key w
  unfolding serve route
  serve-get L r w k key get =
      rw get ((get_rule (frame_reads S L k key (L.find k key w)) r r.path).at w refl)
