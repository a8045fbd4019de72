-- ===== src/Web/Handlers.antt =====
-- cmd/provisioner/main.go: the handlers. A response goes with the tasks that `go` starts.
pub mod Kubeconfig
use dbaas.Prelude.{ℕ, Bool, true, false, List, [], ◌∷◌, ◌++◌, if◌then◌else◌}
use dbaas.Prelude.Text.{Text, codes, ◌==◌}
use dbaas.Exec.{Error, errorf, wrap, Result, ok, err, Exec, pure, attempt, ◌>>=◌}
use dbaas.Url.{UrlPackage}
use dbaas.Cluster.{Server, Workspace}
use dbaas.Provisioner.Env.{Provisioner}
use dbaas.Provisioner.Host.{NetPackage}
use dbaas.Provisioner.Kubeconfig.{
  Config, kubeconfig_bytes_for_external_base_url, admin_kubeconfig_bytes_for_external_base_url,
}
use dbaas.Provisioner.Listing.{WorkspaceInfo, list_workspaces}
use dbaas.Provisioner.Workspaces.{Task, provision_workspace, delete_workspace, get_workspace}
use dbaas.Web.Forwarded.{Request, request_external_base_url}

-- `pageData`
pub record PageData : Type 0 where
  pub workspaces : List WorkspaceInfo
  pub error : Text
  pub success : Text
  pub headlamp_base_url : Text

-- The index page, a redirect (303) to an address, an error with its status and its text, a file
-- with its name and its data, and the answer of the mux to a method that a path does not take (405).
pub data Response : Type 0 where
  page : PageData → Response
  redirect : Text → Response
  http_error : ℕ → Text → Response
  file : Text → Text → Response
  not_allowed : Response

abbrev pub bad_request : ℕ
bad_request = 400

abbrev pub status_not_found : ℕ
status_not_found = 404

abbrev pub conflict : ℕ
conflict = 409

abbrev pub internal_server_error : ℕ
internal_server_error = 500

abbrev pub Answer : Type 0
Answer = Response × List Task

-- An answer that starts no task.
abbrev pub only : Response → Answer
only response = (response, [])

-- What the handlers call of other packages: `Error` of an error, and `url.QueryEscape`.
pub record WebPackage : Type 0 where
  pub message : Error → Text
  pub query_escape : Text → Text

-- The packages and the servers behind the handlers.
module _ (N : NetPackage) (G : WebPackage) (U : UrlPackage) (write : Config → Result Text)
    {W : Type 0} (S : Server W) (P : Provisioner) where
  unfoldable pub headlamp_url : Result Text → Text
  headlamp_url (ok url) = url
  headlamp_url (err e) = codes "http://localhost:4466"

  -- The page before the workspaces are listed.
  unfoldable pub base_page : Request → PageData
  base_page r = record {
    workspaces = [];
    error = r.error;
    success = r.success;
    headlamp_base_url =
        headlamp_url (request_external_base_url U N r (codes "http") (codes "4466"));
  }

  unfoldable pub page_of_list : PageData → Result (List WorkspaceInfo) → PageData
  page_of_list content (err e) = record content {
    error = G.message (wrap "listing workspaces: %v" [] e);
  }
  page_of_list content (ok infos) = record content { workspaces = infos }

  -- `handleIndex`
  unfoldable pub handle_index : Request → Exec W Answer
  handle_index r = do
    infos ← attempt (list_workspaces U S P)
    pure (only (page (page_of_list (base_page r) infos)))

  abbrev error_redirect : Text → Response
  error_redirect text = redirect (codes "/?error=" ++ G.query_escape text)

  abbrev success_redirect : Text → Response
  success_redirect text = redirect (codes "/?success=" ++ G.query_escape text)

  unfoldable pub created_answer : Text → Result (Unit {0}) → Answer
  created_answer name (err e) = only (error_redirect (G.message e))
  created_answer name (ok _) =
      only (success_redirect (codes "Workspace " ++ (name ++ codes " provisioned successfully")))

  -- `handleCreateWorkspace`
  unfoldable pub handle_create_workspace : Text → Exec W Answer
  handle_create_workspace [] = pure (only (error_redirect (codes "workspace name is required")))
  handle_create_workspace (c ∷ name) = do
    r ← attempt (provision_workspace U S P (c ∷ name))
    pure (created_answer (c ∷ name) r)

  unfoldable pub file_answer : Text → Result Text → Answer
  file_answer name (err e) = only (http_error internal_server_error (G.message e))
  file_answer name (ok content) = only (file (name ++ codes ".kubeconfig") content)

  unfoldable pub admin_answer : Result Text → Exec W Answer
  admin_answer (err e) = pure (only (http_error bad_request (G.message e)))
  admin_answer (ok base_url) = do
    content ← attempt (admin_kubeconfig_bytes_for_external_base_url U write S P base_url)
    pure (file_answer (codes "admin") content)

  -- `handleAdminKubeconfig`
  unfoldable pub handle_admin_kubeconfig : Request → Exec W Answer
  handle_admin_kubeconfig r =
      admin_answer (request_external_base_url U N r (codes "https") (codes "6443"))

  unfoldable pub deleted_answer : Text → Result (List Task) → Answer
  deleted_answer name (err e) = only (error_redirect (G.message e))
  deleted_answer name (ok tasks) =
      (success_redirect (codes "Workspace " ++ (name ++ codes " deleted")), tasks)

  -- `handleDeleteWorkspace`
  unfoldable pub handle_delete_workspace : Text → Exec W Answer
  handle_delete_workspace name = do
    r ← attempt (delete_workspace U S P name)
    pure (deleted_answer name r)

  -- What follows the base URL in `handleKubeconfig`.
  unfoldable pub kubeconfig_answer : Text → Workspace → Result Text → Exec W Answer
  kubeconfig_answer name w (err e) = pure (only (http_error bad_request (G.message e)))
  kubeconfig_answer name w (ok base_url) = do
    content ← attempt (kubeconfig_bytes_for_external_base_url U write S P w base_url)
    pure (file_answer name content)

  -- What follows the read of the workspace.
  unfoldable pub workspace_answer : Request → Text → Result Workspace → Exec W Answer
  workspace_answer r name (err e) = pure (only (http_error status_not_found (G.message e)))
  workspace_answer r name (ok w) =
      if w.url == []
      then pure (
          only (
            http_error conflict
              (G.message (errorf "workspace %q has no URL (not ready yet?)" (name ∷ [])))))
      else kubeconfig_answer name w (request_external_base_url U N r (codes "https") (codes "6443"))

  -- `handleKubeconfig`
  unfoldable pub handle_kubeconfig : Request → Text → Exec W Answer
  handle_kubeconfig r name = do w ← attempt (get_workspace U S P name); workspace_answer r name w
