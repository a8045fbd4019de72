-- ===== src/Provisioner/Listing/Laws.antt =====
-- Which workspaces `ListWorkspaces` shows.
use dbaas.Prelude.{List, [], ◌∷◌, ◌≡◌, refl, Bool-cases, inl, inr}
use dbaas.Prelude.Text.{Text, codes, ◌==◌}
use dbaas.Exec.{Result, ok, err, Exec, or_wrap, ◌>>=◌, pure}
use dbaas.Url.{UrlPackage}
use dbaas.Cluster.{Server, Workspace, Endpoint}
use dbaas.Provisioner.Env.{Provisioner, client_for_workspace, consumer_path}
use dbaas.Provisioner.Workspaces.{list_consumer_workspaces}
use dbaas.Provisioner.Listing.{
  WorkspaceInfo, finalizing_parent, terminating_info, ready_info, waiting_info, status_over,
  logical_cluster_deletion_status, count_over, count_databases, workspace_info, workspace_infos,
  list_workspaces,
}

-- The names, in their order.
pub names : List Workspace → List Text
names [] = []
names (w ∷ ws) = w.meta.name ∷ names ws

pub info_names : List WorkspaceInfo → List Text
info_names [] = []
info_names (i ∷ infos) = i.name ∷ info_names infos

waiting_info-name : (ws : Workspace) → (waiting_info ws).name ≡ ws.meta.name
unfolding waiting_info
waiting_info-name ws = elim (Bool-cases (ws.phase == [])) [ inl h ↦ rw h refl | inr h ↦ rw h refl ]

module _ (U : UrlPackage) {W : Type 0} (S : Server W) (P : Provisioner) where
  -- The step gives a value, whatever the servers answer.
  abbrev Succeeds : {A : Type 0} → Exec W A → W → Type 0
  Succeeds {A} m w = (a : A) × ((m w).0 ≡ ok a)

  status_over_succeeds : (c : Result Endpoint) (w : W) → Succeeds (status_over U S P c) w
  unfolding status_over ◌>>=◌
  status_over_succeeds (err e) w = (_, refl)
  status_over_succeeds (ok client) w = (_, refl)

  abbrev waiting : Text × Text
  waiting =
      (finalizing_parent, codes "Waiting for workspace cleanup after scheduling metadata removal.")

  deletion_status_succeeds :
      (ws : Workspace) (w : W) → Succeeds (logical_cluster_deletion_status U S P ws) w
  unfolding logical_cluster_deletion_status pure
  deletion_status_succeeds ws w = elim (Bool-cases (ws.cluster == [])) [
    | inl h ↦ (waiting, rw h refl)
    | inr h ↦ rw h (status_over_succeeds _ w)
  ]

  count_over_succeeds : (c : Result Endpoint) (w : W) → Succeeds (count_over U S P c) w
  unfolding count_over ◌>>=◌
  count_over_succeeds (err e) w = (_, refl)
  count_over_succeeds (ok client) w = (_, refl)

  abbrev Named : Text → Exec W WorkspaceInfo → W → Type 0
  Named name m w = (i : WorkspaceInfo) × ((m w).0 ≡ ok i) × (i.name ≡ name)

  workspace_info-Named : (ws : Workspace) (w : W) → Named ws.meta.name (workspace_info U S P ws) w
  unfolding workspace_info terminating_info ready_info ◌>>=◌ count_databases pure
      logical_cluster_deletion_status deletion_status_succeeds ◌==◌
  workspace_info-Named ws w = elim (Bool-cases ws.meta.deleting) [
    | inl gone ↦
        let (s, e) = deletion_status_succeeds ws w in
        (terminating_info ws s, rw (gone, e) refl, refl)
    | inr alive ↦ elim (Bool-cases (ws.phase == codes "Ready")) [
      | inl ready ↦
          let (n, e) =
            count_over_succeeds (client_for_workspace U S P (consumer_path U S P ws.meta.name)) w in
          (ready_info ws n, rw (alive, ready, e) refl, refl)
      | inr waits ↦ (waiting_info ws, rw (alive, waits) refl, waiting_info-name ws)
    ]
  ]

  workspace_infos-names :
      (ws : List Workspace) (w : W)
      → (infos : List WorkspaceInfo) × ((workspace_infos U S P ws w).0 ≡ ok infos)
        × (info_names infos ≡ names ws)
  unfolding workspace_infos names info_names ◌>>=◌
  workspace_infos-names [] w = ([], refl, refl)
  workspace_infos-names (x ∷ ws) w =
      let (i, e, n) = workspace_info-Named x w in
      let (is, es, ns) = workspace_infos-names ws (workspace_info U S P x w).1 in
      (i ∷ is, rw (e, es), rw (n, ns))

  -- If the consumer workspaces can be listed, `ListWorkspaces` succeeds and shows every one of
  -- them, in the order of the server, whatever the requests for the single workspaces answer.
  pub list_workspaces_shows_all :
      (w : W) (ws : List Workspace)
      → (list_consumer_workspaces U S P w).0 ≡ ok ws
      → (infos : List WorkspaceInfo) × ((list_workspaces U S P w).0 ≡ ok infos)
        × (info_names infos ≡ names ws)
  unfolding list_workspaces ◌>>=◌ or_wrap
  list_workspaces_shows_all w ws got =
      let (is, es, ns) = workspace_infos-names ws (list_consumer_workspaces U S P w).1 in
      (is, rw got es, ns)
