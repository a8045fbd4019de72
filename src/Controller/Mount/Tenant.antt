-- ===== src/Controller/Mount/Tenant.antt =====
-- The tenant's workspace that `consumerWorkspacePathForCluster` finds.
use dbaas.Prelude.{
  Bool, true, false, List, [], ◌∷◌, ◌++◌, ◌≡◌, ◌⊎◌, inl, inr, refl, arith, Bool-cases, ◌||◌,
}
use dbaas.Prelude.Text.{Text, codes, ◌==◌, eq→≡}
use dbaas.Prelude.Dict
use dbaas.Exec.{ok}
use dbaas.Exec.Ensures.{
  Ensures, Ensures-bind, Ensures-pure, Ensures-lift, Ensures-or_wrap, Ensures-given,
}
use dbaas.Cluster.{Server, Endpoint, Workspace, workspace}
use dbaas.Controller.Env.{Packages, Reconciler}
use dbaas.Controller.Mount.{
  is_of_cluster, path_for_cluster, kcp_client_for_workspace, consumer_workspace_path_for_cluster,
}

-- The workspace is one of the list.
pub data IsListed (t : Workspace) : List Workspace → Type 0 where
  here : (ws : List Workspace) → IsListed t (t ∷ ws)
  there : (w : Workspace) (ws : List Workspace) → IsListed t ws → IsListed t (w ∷ ws)

-- The logical cluster of the workspace has this name, by its specification or its annotation.
abbrev pub HasCluster : Text → Workspace → Type 0
HasCluster id t =
    (t.cluster ≡ id) ⊎ (Dict.read (codes "internal.tenancy.kcp.io/cluster") t.meta.annotations ≡ id)

-- The path is that of a workspace of the list whose cluster has this name.
abbrev Leads : Text → Text → List Workspace → Text → Type 0
Leads consumers id ws path =
    (t : Workspace) × IsListed t ws × HasCluster id t × (path ≡ consumers ++ b':' ∷ t.meta.name)

either : (a b : Bool) → (a || b) ≡ true → (a ≡ true) ⊎ (b ≡ true)
either true b e = inl refl
either false b e = inr e

is_of_cluster-HasCluster : (id : Text) (t : Workspace) → is_of_cluster id t ≡ true → HasCluster id t
unfolding is_of_cluster
is_of_cluster-HasCluster id t e = elim (either _ _ e) [
  | inl same ↦ inl (eq→≡ _ _ same)
  | inr same ↦ inr (eq→≡ _ _ same)
]

Leads-there :
    (consumers id path : Text) (w : Workspace) (ws : List Workspace)
    → Leads consumers id ws path
    → Leads consumers id (w ∷ ws) path
Leads-there consumers id path w ws (t, listed, named, e) = (t, there w ws listed, named, e)

path_for_cluster-Leads :
    (consumers id : Text) (ws : List Workspace)
    → (path_for_cluster consumers id ws == []) ≡ false
    → Leads consumers id ws (path_for_cluster consumers id ws)
unfolding path_for_cluster ◌==◌
path_for_cluster-Leads consumers id [] e = absurd (ground arith)
path_for_cluster-Leads consumers id (w ∷ ws) e = elim (Bool-cases (is_of_cluster id w)) [
  | inl same ↦ rw same (w, here ws, is_of_cluster-HasCluster id w same, refl)
  | inr other ↦ rw other (
      Leads-there consumers id (path_for_cluster consumers id ws) w ws
        (path_for_cluster-Leads consumers id ws (rw other at e)))
]

module _ (P : Packages) {W : Type 0} (S : Server W) (R : Reconciler) where
  -- The path is that of a workspace of the consumers' parent, as it was listed, whose cluster has
  -- this name.
  abbrev IsPath : Text → Text → Type 0
  IsPath id path =
      (parent : Endpoint) × (u : W) × (ws : List Workspace) × (kcp_client_for_workspace P S R
          R.consumers_workspace
        ≡ ok parent)
      × ((S.list workspace parent [] [] u).0 ≡ ok ws)
      × Leads R.consumers_workspace id ws path

  -- The endpoint is that of such a workspace.
  abbrev pub IsTenant : Text → Endpoint → Type 0
  IsTenant id client =
      (path : Text) × IsPath id path × (kcp_client_for_workspace P S R path ≡ ok client)

  pub consumer_workspace_path_for_cluster-IsPath :
      {Q : W → Type 0} (id : Text)
      → Ensures Q
          (consumer_workspace_path_for_cluster P S R id)
          (λ path _. (path == []) ≡ false → IsPath id path)
  unfolding consumer_workspace_path_for_cluster
  consumer_workspace_path_for_cluster-IsPath id =
      Ensures-bind _ _ (Ensures-lift (kcp_client_for_workspace P S R R.consumers_workspace))
        (λ parent. Ensures-given (λ connected.
          Ensures-bind {R = λ ws _. (u : W) × ((S.list workspace parent [] [] u).0 ≡ ok ws)} _ _
            (Ensures-or_wrap _ _ _ (record { at = λ u h ws e. (u, e) }))
            (λ ws. Ensures-pure _ (λ _ (u, e) found. (
              parent,
              u,
              ws,
              connected,
              e,
              path_for_cluster-Leads R.consumers_workspace id ws found,
            )))))
