-- ===== src/Controller/Mount/Laws.antt =====
-- The mounted workspace after `ensureMountedWorkspace` and `deleteMountedWorkspace`.
use dbaas.Prelude.{
  Bool, Option, ◌&&◌, true, false, [], none, some, ◌≡◌, refl, arith, Bool-cases, inl, inr, sym, ◌∙◌,
}
use mathlib.Core.Bool.{false≢true}
use dbaas.Prelude.Text.{Text, ◌==◌, eq→≡}
use dbaas.Exec.{Result, ok, err, is_not_found, is_already_exists, pure, raise, attempt, ◌>>=◌}
use dbaas.Exec.Ensures.{
  Ensures, Ensures-bind, Ensures-lift, Ensures-if, Ensures-raise, Ensures-pure, Ensures-weaken,
  Ensures-given,
}
use dbaas.Cluster.{Server, Endpoint, workspace, Workspace, MountReference}
use dbaas.Cluster.Lawful.{IsLawful, IsDeleted}
use dbaas.Cluster.Lawful.Reads.{Agrees, Ensures-get}
use dbaas.Controller.Env.{Packages, Reconciler}
use dbaas.Controller.Mount.Tenant.{IsTenant, consumer_workspace_path_for_cluster-IsPath}
use dbaas.Controller.Mount.{
  workspace_key, mounts_object, mounted, kcp_client_for_workspace,
  consumer_workspace_path_for_cluster, mount_created, mount_deleted, mount_found,
  ensure_mounted_workspace, delete_mounted_workspace,
}

and-true : (a b : Bool) → a && b ≡ true → (a ≡ true) × (b ≡ true)
and-true true b e = (refl, e)
and-true false b e = absurd (false≢true e)

module _ (P : Packages) {W : Type 0} (S : Server W) (L : IsLawful S) (R : Reconciler) where
  -- The workspace mounts the object of this name and this namespace.
  abbrev pub Mounts : Text → Text → Workspace → Type 0
  Mounts rn rns ws =
      (m : MountReference) × (ws.mount ≡ some m) × (m.name ≡ rn) × (m.namespace ≡ rns)

  -- A workspace of this name at the endpoint mounts this object.
  abbrev MountedAt : Endpoint → Text → Text → Text → W → Type 0
  MountedAt client name rn rns w =
      (ws : Workspace) × (L.find workspace (workspace_key client name) w ≡ some ws)
      × Mounts rn rns ws

  -- A workspace of this name under the workspace of the tenant mounts this object.
  abbrev pub IsMounted : Text → Text → Text → Text → W → Type 0
  IsMounted id name rn rns w =
      (client : Endpoint) × IsTenant P S R id client × MountedAt client name rn rns w

  mounts_object-Mounts :
      (rn rns : Text) (ws : Workspace) → mounts_object rn rns ws ≡ true → Mounts rn rns ws
  unfolding mounts_object
  mounts_object-Mounts rn rns ws e = go ws.mount refl
    where
      go : (o : Option MountReference) → ws.mount ≡ o → Mounts rn rns ws
      go none h = absurd (false≢true (rw h at e))
      go (some m) h =
          let both = and-true (m.name == rn) (m.namespace == rns) (rw h at e) in
          (m, h, eq→≡ _ _ both.0, eq→≡ _ _ both.1)

  -- What the answer to the creation of the mount says.
  abbrev Created : Endpoint → Text → Text → Text → Result (Unit {0}) → W → Type 0
  Created client name rn rns (ok _) w = MountedAt client name rn rns w
  Created client name rn rns (err x) w = is_already_exists x ≡ false

  module _ (client : Endpoint) (tenant name rn rns : Text) where
    create-Created :
        (w : W) (r : Result (Unit {0}))
        → L.find workspace (workspace_key client name) w ≡ none
        → (S.create workspace (workspace_key client name) (mounted name rn rns) w).0 ≡ r
        → Created client name rn rns r
            (S.create workspace (workspace_key client name) (mounted name rn rns) w).1
    create-Created w (ok _) absent e = (
      mounted name rn rns,
      L.create_ok workspace (workspace_key client name) (mounted name rn rns) w e,
      (_, refl, refl, refl),
    )
    create-Created w (err x) absent e = ground (
      arith,
      L.create_already_exists workspace (workspace_key client name) (mounted name rn rns) w x e,
    )

    Ensures-create :
        Ensures
          (λ w. L.find workspace (workspace_key client name) w ≡ none)
          (attempt (S.create workspace (workspace_key client name) (mounted name rn rns)))
          (Created client name rn rns)
    unfolding attempt
    Ensures-create = record { at = λ w h r e. create-Created w r h (cc) }

    mount_created-IsMounted :
        (r : Result (Unit {0}))
        → Ensures
            (Created client name rn rns r)
            (mount_created P S R tenant name r)
            (λ _. MountedAt client name rn rns)
    unfolding mount_created
    mount_created-IsMounted (ok _) = Ensures-pure tt (λ w h. h)
    mount_created-IsMounted (err x) =
        Ensures-if (is_already_exists x) _ _
          (λ e. record { at = λ w h a q. absurd (false≢true (sym h ∙ e)) }) (λ e. Ensures-raise _)

    mount_found-IsMounted :
        (r : Result Workspace)
        → Ensures
            (Agrees S L workspace (workspace_key client name) r)
            (mount_found P S R client tenant name rn rns r)
            (λ _. MountedAt client name rn rns)
    unfolding mount_found
    mount_found-IsMounted (ok existing) =
        Ensures-if (mounts_object rn rns existing) _ _
          (λ e. Ensures-pure tt (λ w h. (existing, h, mounts_object-Mounts rn rns existing e)))
          (λ e. Ensures-raise _)
    mount_found-IsMounted (err x) =
        Ensures-if (is_not_found x) _ _
          (λ e.
            Ensures-weaken (λ w h. h e) (Ensures-bind _ _ Ensures-create mount_created-IsMounted))
          (λ e. Ensures-raise _)

    mounted_at :
        Ensures
          (λ _. Unit {0})
          (do
            existing ← attempt (S.get workspace (workspace_key client name))
            mount_found P S R client tenant name rn rns existing)
          (λ _. MountedAt client name rn rns)
    mounted_at =
        Ensures-bind _ _ (Ensures-get S L workspace (workspace_key client name))
          (λ found. mount_found-IsMounted found)

  -- What it ensures, as a step of a longer method.
  pub ensure_mounted_workspace-IsMounted :
      {Q : W → Type 0} (id name rn rns : Text)
      → Ensures Q (ensure_mounted_workspace P S R id name rn rns) (λ _. IsMounted id name rn rns)
  unfolding ensure_mounted_workspace
  ensure_mounted_workspace-IsMounted {Q} id name rn rns =
      Ensures-bind _ _ (consumer_workspace_path_for_cluster-IsPath P S R id) (λ tenant.
        Ensures-if (tenant == []) _ _ (λ e. Ensures-raise _)
          (λ e. Ensures-bind _ _ (Ensures-lift (kcp_client_for_workspace P S R tenant)) (λ client.
            Ensures-given (λ connected. record {
              at = λ w path a done. (
                client,
                (tenant, path e, connected),
                (mounted_at client tenant name rn rns).at w tt a done,
              );
            }))))

  module _ (id name tenant : Text) (client : Endpoint) (w : W)
      (found : (consumer_workspace_path_for_cluster P S R id w).0 ≡ ok tenant)
      (some_tenant : (tenant == []) ≡ false)
      (connected : kcp_client_for_workspace P S R tenant ≡ ok client) where
    abbrev after_lookup : W
    after_lookup = (consumer_workspace_path_for_cluster P S R id w).1

    delete_mounted_workspace_step :
        delete_mounted_workspace P S R id name w
        ≡ mount_deleted P S R name
            (S.delete workspace (workspace_key client name) after_lookup).0
            (S.delete workspace (workspace_key client name) after_lookup).1
    unfolding delete_mounted_workspace ◌>>=◌
    delete_mounted_workspace_step = rw (found, some_tenant, connected)

    delete-IsDeleted :
        (r : Result (Unit {0}))
        → (S.delete workspace (workspace_key client name) after_lookup).0 ≡ r
        → (mount_deleted P S R name r
            (S.delete workspace (workspace_key client name) after_lookup).1).0
          ≡ ok tt
        → IsDeleted workspace (
            L.find workspace
              (workspace_key client name)
              (mount_deleted P S R name r
                (S.delete workspace (workspace_key client name) after_lookup).1).1)
    unfolding mount_deleted pure raise
    delete-IsDeleted (ok _) e h = L.delete_ok workspace (workspace_key client name) after_lookup e
    delete-IsDeleted (err x) e h = elim (Bool-cases (is_not_found x)) [
      | inl n ↦ rw n (
          IsDeleted.absent
            (L.delete_not_found workspace (workspace_key client name) after_lookup x e n))
      | inr n ↦ absurd (ground arith)
    ]

    -- Over servers that are lawful (`IsLawful`). Where the tenant's workspace is found and a
    -- client of it can be made: if the deletion succeeds, the workspace of that name is gone or
    -- about to go, whatever it mounts.
    pub delete_mounted_workspace-IsDeleted :
        (delete_mounted_workspace P S R id name w).0 ≡ ok tt
        → IsDeleted workspace (
            L.find workspace
              (workspace_key client name)
              (delete_mounted_workspace P S R id name w).1)
    delete_mounted_workspace-IsDeleted h =
        rw delete_mounted_workspace_step
          (delete-IsDeleted _ refl (rw delete_mounted_workspace_step at h))
