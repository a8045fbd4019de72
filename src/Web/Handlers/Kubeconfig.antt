-- ===== src/Web/Handlers/Kubeconfig.antt =====
-- The answers of `handleKubeconfig`.
use dbaas.Prelude.{
  ℕ, Bool, true, false, List, [], ◌∷◌, if◌then◌else◌, ◌≡◌, ◌↔◌, inl, inr, refl, ap, sym, ◌∙◌, arith,
  Bool-cases, ◌≢◌,
}
use dbaas.Prelude.Text.{Text, codes, ◌==◌, eq→≡}
use dbaas.Exec.{Error, errorf, Result, ok, err, pure, lift, ◌>>=◌}
use dbaas.Exec.Ensures.{bind-ok}
use dbaas.Url.{UrlPackage}
use dbaas.Cluster.{Server, Workspace}
use dbaas.Provisioner.Credentials.{workspace_credential_mode, workspace_service_account_token}
use dbaas.Provisioner.Env.{
  Provisioner, scoped, consumer_path, token_auth_info, workspace_service_account_name,
}
use dbaas.Provisioner.Host.{NetPackage}
use dbaas.Provisioner.Kubeconfig.{
  Config, external_url_for_server, workspace_kubeconfig, kubeconfig_bytes_for_external_base_url,
}
use dbaas.Provisioner.Kubeconfig.Laws.{workspace_kubeconfig_no_fallback}
use dbaas.Provisioner.Workspaces.{Task, get_workspace}
use dbaas.Web.Forwarded.{Request, request_external_base_url}
use dbaas.Web.Handlers.{
  Response, page, redirect, http_error, file, not_allowed, Answer, only, conflict, WebPackage,
  file_answer, kubeconfig_answer, workspace_answer, handle_kubeconfig,
}

-- The status of a response.
unfoldable pub status_of : Response → ℕ
status_of (page content) = 200
status_of (redirect location) = 303
status_of (http_error status text) = status
status_of (file name content) = 200
status_of not_allowed = 405

module _ (N : NetPackage) (G : WebPackage) (U : UrlPackage) (write : Config → Result Text)
    {W : Type 0} (S : Server W) (P : Provisioner) where
  -- The answer behind the read of a workspace.
  answered :
      (r : Request) (name : Text) (w : W) (a : Result Workspace)
      → (get_workspace U S P name w).0 ≡ a
      → handle_kubeconfig N G U write S P r name w
        ≡ workspace_answer N G U write S P r name a (get_workspace U S P name w).1
  unfolding handle_kubeconfig ◌>>=◌
  answered r name w a got = rw got refl

  abbrev IsRead : Workspace → W → Text → Text → Type 0
  IsRead ws v content external =
      (cfg : Config) × (write cfg ≡ ok content)
      × ((workspace_kubeconfig U write S P ws external v).0 ≡ ok cfg)

  bytes-ok :
      (ws : Workspace) (external content : Text) (v : W)
      → (kubeconfig_bytes_for_external_base_url U write S P ws external v).0 ≡ ok content
      → IsRead ws v content external
  unfolding kubeconfig_bytes_for_external_base_url ◌>>=◌
  bytes-ok ws external content v done =
      let (cfg, made, written) =
        bind-ok (workspace_kubeconfig U write S P ws external) (λ cfg. lift (write cfg)) v content
          done in
      (cfg, written, made)

  server-ok :
      (ws : Workspace) (external : Text) (cfg : Config) (v : W)
      → (workspace_kubeconfig U write S P ws external v).0 ≡ ok cfg
      → (server : Text) × (external_url_for_server U ws.url external ≡ ok server)
  unfolding workspace_kubeconfig ◌>>=◌
  server-ok ws external cfg v done =
      let (server, known, rest) =
        bind-ok (lift (external_url_for_server U ws.url external)) _ v cfg done in
      (server, known)

  file_answer-file :
      (name file_name content : Text) (tasks : List Task) (a : Result Text)
      → file_answer N G U write S P name a ≡ (file file_name content, tasks)
      → a ≡ ok content
  unfolding file_answer
  file_answer-file name file_name content tasks (ok c) e = cc
  file_answer-file name file_name content tasks (err x) e = cc

  -- What a file that is sent holds.
  kubeconfig_answer-file :
      (name : Text) (ws : Workspace) (b : Result Text) (v : W) (file_name content : Text)
      (tasks : List Task)
      → (kubeconfig_answer N G U write S P name ws b v).0 ≡ ok (file file_name content, tasks)
      → (external : Text) × IsRead ws v content external
  unfolding kubeconfig_answer ◌>>=◌
  kubeconfig_answer-file name ws (err e) v file_name content tasks done = cc
  kubeconfig_answer-file name ws (ok external) v file_name content tasks done = (
    external,
    bytes-ok ws external content v (file_answer-file name file_name content tasks _ (cc)),
  )

  workspace_answer-file :
      (r : Request) (name : Text) (ws : Workspace) (v : W) (file_name content : Text)
      (tasks : List Task)
      → (workspace_answer N G U write S P r name (ok ws) v).0 ≡ ok (file file_name content, tasks)
      → (external : Text) × IsRead ws v content external
  unfolding workspace_answer ◌>>=◌
  workspace_answer-file r name ws v file_name content tasks = go (ws.url == [])
    where
      go :
          (b : Bool)
          → ((if b
                then pure (
                    only (
                      http_error conflict (
                        G.message (errorf "workspace %q has no URL (not ready yet?)" (name ∷ [])))))
                else kubeconfig_answer N G U write S P name ws
                    (request_external_base_url U N r (codes "https") (codes "6443")))
              v).0
            ≡ ok (file file_name content, tasks)
          → (external : Text) × IsRead ws v content external
      go true done = cc
      go false done = kubeconfig_answer-file name ws _ v file_name content tasks done

  -- Let a workspace be found that has scoped credentials. If `handleKubeconfig` answers with a
  -- file, the token of the workspace's service account could be read, and the file is a config of
  -- which that token is the only credential.
  pub handle_kubeconfig_scoped :
      (r : Request) (name : Text) (w : W) (ws : Workspace) (file_name content : Text)
      (tasks : List Task)
      → (get_workspace U S P name w).0 ≡ ok ws
      → workspace_credential_mode ws ≡ scoped
      → (handle_kubeconfig N G U write S P r name w).0 ≡ ok (file file_name content, tasks)
      → (cfg : Config) × (write cfg ≡ ok content)
        × ((token : Text) × ((workspace_service_account_token U S P
                (consumer_path U S P ws.meta.name)
                (get_workspace U S P name w).1).0
              ≡ ok token)
            × (cfg.auth_infos ≡ (workspace_service_account_name, token_auth_info token) ∷ []))
  handle_kubeconfig_scoped r name w ws file_name content tasks got mode done =
      let (external, (cfg, written, made)) =
        workspace_answer-file r name ws _ file_name content tasks
          (sym (ap (λ x. x.0) (answered r name w (ok ws) got)) ∙ done) in
      let (server, known) = server-ok ws external cfg _ made in
      (
        cfg,
        written,
        workspace_kubeconfig_no_fallback U write S P ws external server _ known cfg mode made,
      )

  -- Which reads of the workspace go with the statuses 404 and 409.
  abbrev Outcome : Result Workspace → Answer → Type 0
  Outcome a answer =
      ((status_of answer.0 ≡ 404) ↔ ((e : Error) × (a ≡ err e)))
      × ((status_of answer.0 ≡ 409) ↔ ((ws : Workspace) × (a ≡ ok ws) × (ws.url ≡ [])))

  file_answer-status :
      (name : Text) (a : Result Text)
      → (status_of (file_answer N G U write S P name a).0 ≢ 404)
        × (status_of (file_answer N G U write S P name a).0 ≢ 409)
  unfolding file_answer status_of
  file_answer-status name (ok c) = (ground arith, ground arith)
  file_answer-status name (err e) = (ground arith, ground arith)

  kubeconfig_answer-status :
      (name : Text) (ws : Workspace) (b : Result Text) (v : W)
      → (answer : Answer) × ((kubeconfig_answer N G U write S P name ws b v).0 ≡ ok answer)
        × (status_of answer.0 ≢ 404)
        × (status_of answer.0 ≢ 409)
  unfolding kubeconfig_answer ◌>>=◌ status_of
  kubeconfig_answer-status name ws (err e) v = (_, refl, ground arith, ground arith)
  kubeconfig_answer-status name ws (ok external) v =
      let (a, b) = file_answer-status name _ in (_, refl, a, b)

  not_empty : (s : Text) → (s == []) ≡ false → s ≢ []
  unfolding ◌==◌
  not_empty [] e h = cc
  not_empty (c ∷ s) e h = cc

  ready-Outcome :
      (ws : Workspace) (answer : Answer)
      → (ws.url == []) ≡ false
      → (status_of answer.0 ≢ 404) × (status_of answer.0 ≢ 409)
      → Outcome (ok ws) answer
  ready-Outcome ws answer ready (a, b) = (
    (λ h. absurd (a h), λ (e, h). cc),
    (λ h. absurd (b h), λ (other, same, empty). absurd (not_empty ws.url ready (cc))),
  )

  workspace_answer-Outcome :
      (r : Request) (name : Text) (a : Result Workspace) (v : W)
      → (answer : Answer) × ((workspace_answer N G U write S P r name a v).0 ≡ ok answer)
        × Outcome a answer
  unfolding workspace_answer ◌>>=◌ status_of
  workspace_answer-Outcome r name (err e) v =
      (_, refl, ((λ h. (e, refl), λ h. refl), (λ h. ground arith, λ (ws, h, empty). cc)))
  workspace_answer-Outcome r name (ok ws) v = elim (Bool-cases (ws.url == [])) [
    | inl empty ↦ rw empty (
      _,
      refl,
      ((λ h. ground arith, λ (e, h). cc), (λ h. (ws, refl, eq→≡ ws.url [] empty), λ h. refl)),
    )
    | inr ready ↦ rw ready (
        let (answer, done, a, b) =
          kubeconfig_answer-status name ws
            (request_external_base_url U N r (codes "https") (codes "6443")) v in
        (answer, done, ready-Outcome ws answer ready (a, b)))
  ]

  -- `handleKubeconfig` always answers. The status is 404 exactly if the workspace could not be
  -- read, and 409 exactly if it was read and has no URL.
  pub handle_kubeconfig_status :
      (r : Request) (name : Text) (w : W)
      → (answer : Answer) × ((handle_kubeconfig N G U write S P r name w).0 ≡ ok answer)
        × (((status_of answer.0 ≡ 404) ↔ ((e : Error) × ((get_workspace U S P name w).0 ≡ err e)))
            × ((status_of answer.0 ≡ 409)
                ↔ ((ws : Workspace) × ((get_workspace U S P name w).0 ≡ ok ws) × (ws.url ≡ []))))
  handle_kubeconfig_status r name w = rw (ap (λ x. x.0) (answered r name w _ refl)) (
      workspace_answer-Outcome r name (get_workspace U S P name w).0 (get_workspace U S P name w).1)
