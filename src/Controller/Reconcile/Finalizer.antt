-- ===== src/Controller/Reconcile/Finalizer.antt =====
-- The finalizer of a Kubernetes object in `Reconcile` and `reconcileDelete`.
use dbaas.Prelude.{
  true, false, [], Option, none, some, if◌then◌else◌, ◌≡◌, ◌≢◌, refl, sym, ◌∙◌, ◌⊎◌, inl, inr,
  arith, Bool-cases, ap,
}
use mathlib.Core.Path.{subst}
use dbaas.Prelude.Text.{Text, ◌==◌}
use dbaas.Exec.{Error, ok, err, pure, ◌>>=◌, Result-cases}
use dbaas.Exec.Keeps.{Keeps, Keeps-bind, Keeps-if, Keeps-or_wrap, Keeps-pure}
use dbaas.Exec.Ensures.{Ensures, Ensures-bind, Ensures-if, Ensures-pure, Ensures-or_wrap}
use dbaas.Cluster.{Server, Endpoint, Kubernetes, kubernetes, workspace, Key, Workspace}
use dbaas.Cluster.Lawful.{IsLawful, IsDeleted}
use dbaas.Cluster.Lawful.Frame
use dbaas.Controller.Env.{Packages, Reconciler}
use dbaas.Controller.Frame.{Keeps-reconcile_live, Keeps-delete_mounted_workspace}
use dbaas.Controller.Mount.{
  workspace_key, kcp_client_for_workspace, consumer_workspace_path_for_cluster,
  delete_mounted_workspace,
}
use dbaas.Controller.Mount.Laws.{delete_mounted_workspace-IsDeleted}
use dbaas.Controller.Workload.{management_key}
use dbaas.Controller.Reconcile.{
  kubernetes_finalizer, mounted_workspace, ensure_finalizer, reconcile_live, drop_finalizer,
  reconcile_delete, reconcile_found, Requeue,
}

-- The documented behaviour of controllerutil on finalizers.
pub record FinalizerLaws (P : Packages) : Type 0 where
  pub contains-add :
      (o : Kubernetes) (f : Text) → P.contains_finalizer (P.add_finalizer o f).0 f ≡ true
  pub add_same :
      (o : Kubernetes) (f : Text) → (P.add_finalizer o f).1 ≡ false → (P.add_finalizer o f).0 ≡ o
  pub deleting-add :
      (o : Kubernetes) (f : Text) → (P.add_finalizer o f).0.meta.deleting ≡ o.meta.deleting

kubernetes-ne-workspace : kubernetes ≢ workspace
kubernetes-ne-workspace = ground arith

module _ (P : Packages) (F : FinalizerLaws P) {W : Type 0} (S : Server W) (L : IsLawful S)
    (R : Reconciler) where
  -- The servers hold the object, with its finalizer.
  abbrev pub IsGuarded : Text → Text → Kubernetes → W → Type 0
  IsGuarded namespace name obj w =
      (L.find kubernetes (management_key namespace name) w ≡ some obj)
      × (P.contains_finalizer obj kubernetes_finalizer ≡ true)

  Ensures-update :
      {Q : W → Type 0} (obj : Kubernetes)
      → obj.meta.deleting ≡ false
      → Ensures Q
          (S.update kubernetes
            (management_key obj.meta.namespace obj.meta.name)
            (P.add_finalizer obj kubernetes_finalizer).0)
          (λ _ w.
            L.find kubernetes (management_key obj.meta.namespace obj.meta.name) w
            ≡ some (P.add_finalizer obj kubernetes_finalizer).0)
  Ensures-update obj live = record {
    at = λ w h a e.
        L.update_ok kubernetes _ _ w (inr (F.deleting-add obj kubernetes_finalizer ∙ live)) e;
  }

  ensure_finalizer-IsGuarded :
      (obj : Kubernetes)
      → obj.meta.deleting ≡ false
      → Ensures
          (λ w. L.find kubernetes (management_key obj.meta.namespace obj.meta.name) w ≡ some obj)
          (ensure_finalizer P S R obj)
          (λ obj' w. IsGuarded obj.meta.namespace obj.meta.name obj' w)
  unfolding ensure_finalizer
  ensure_finalizer-IsGuarded obj live =
      Ensures-if (P.add_finalizer obj kubernetes_finalizer).1 _ _
        (λ added.
          Ensures-bind _ _ (Ensures-or_wrap _ _ _ (Ensures-update obj live))
            (λ _. Ensures-pure _ (λ w h. (h, F.contains-add obj kubernetes_finalizer))))
        (λ same. Ensures-pure _ (λ w h. (
          h ∙ ap some (sym (F.add_same obj kubernetes_finalizer same)),
          F.contains-add obj kubernetes_finalizer,
        )))

  reconcile_found-live :
      (obj : Kubernetes) (w : W)
      → obj.meta.deleting ≡ false
      → reconcile_found P S R (ok obj) w ≡ (ensure_finalizer P S R obj >>= reconcile_live P S R) w
  unfolding reconcile_found
  reconcile_found-live obj w live =
      ap
        (λ b.
          (if b
              then reconcile_delete P S R obj
              else (ensure_finalizer P S R obj >>= reconcile_live P S R))
            w)
        live

  -- Over servers that are lawful (`IsLawful`) and controllerutil's laws on finalizers. For an
  -- object that is held by the servers and is not being deleted, either the finalizer could not be
  -- written and nothing else was done, or afterwards the servers hold the object with its
  -- finalizer, whether or not a later step failed.
  pub reconcile_live-IsGuarded :
      (obj : Kubernetes) (w : W)
      → obj.meta.deleting ≡ false
      → L.find kubernetes (management_key obj.meta.namespace obj.meta.name) w ≡ some obj
      → ((e : Error) × ((ensure_finalizer P S R obj w).0 ≡ err e)
          × (reconcile_found P S R (ok obj) w ≡ (err e, (ensure_finalizer P S R obj w).1)))
        ⊎ ((obj' : Kubernetes) × IsGuarded obj.meta.namespace obj.meta.name obj'
              (reconcile_found P S R (ok obj) w).1)
  unfolding ◌>>=◌
  reconcile_live-IsGuarded obj w live held = elim (Result-cases (ensure_finalizer P S R obj w).0) [
    | inr (e, failed) ↦ inl (e, failed, rw (reconcile_found-live obj w live, failed))
    | inl (obj', done) ↦
        let guarded = (ensure_finalizer-IsGuarded obj live).at w held obj' done in
        inr (
          obj',
          rw (reconcile_found-live obj w live, done)
              (
                (Keeps-reconcile_live P S L R obj.meta.namespace obj.meta.name (some obj') obj').at
                    (ensure_finalizer P S R obj w).1 guarded.0,
                guarded.1,
              ),
        )
  ]

  -- Taking the finalizer off writes no workspace.
  Keeps-drop_finalizer :
      (key : Key) (o : Option Workspace) (obj : Kubernetes)
      → Keeps (Frame.Holds S L workspace key o) (drop_finalizer P S R obj)
  unfolding drop_finalizer
  Keeps-drop_finalizer key o obj =
      Keeps-if (P.remove_finalizer obj kubernetes_finalizer).1 _ _
        (Keeps-or_wrap _ _ _ (
          Frame.Keeps-update S L workspace key o kubernetes
            (management_key obj.meta.namespace obj.meta.name)
            (P.remove_finalizer obj kubernetes_finalizer).0 (inl kubernetes-ne-workspace)))
        (Keeps-pure tt)

  -- Over servers that are lawful (`IsLawful`) and controllerutil's laws on finalizers. Where the
  -- tenant's workspace of the object is found and a client of it can be made: if `reconcileDelete`
  -- changes what the servers hold of any Kubernetes object, then afterwards the mounted workspace
  -- is gone or its deletion is under way.
  pub finalizer_kept :
      (obj : Kubernetes) (w : W) (namespace name tenant : Text) (client : Endpoint)
      → (consumer_workspace_path_for_cluster P S R obj.meta.namespace w).0 ≡ ok tenant
      → (tenant == []) ≡ false
      → kcp_client_for_workspace P S R tenant ≡ ok client
      → L.find kubernetes (management_key namespace name) (reconcile_delete P S R obj w).1
        ≢ L.find kubernetes (management_key namespace name) w
      → IsDeleted workspace (
          L.find workspace
            (workspace_key client (mounted_workspace P S R obj))
            (reconcile_delete P S R obj w).1)
  unfolding reconcile_delete ◌>>=◌
  finalizer_kept obj w namespace name tenant client found some_tenant connected changed =
      elim (Bool-cases (P.contains_finalizer obj kubernetes_finalizer)) [
        | inr lacks ↦ absurd (changed (rw lacks))
        | inl has ↦
            elim (Result-cases
              (delete_mounted_workspace P S R obj.meta.namespace (mounted_workspace P S R obj)
                w).0) [
                  | inr (e, failed) ↦ absurd (
                      changed (
                        rw (has, failed)
                          ((Keeps-delete_mounted_workspace P S L R namespace name _
                              obj.meta.namespace (mounted_workspace P S R obj)).at
                            w refl)))
                  | inl (a, done) ↦
                      rw (has, done)
                        (subst (λ x. IsDeleted workspace x)
                          (sym (
                            (Keeps-bind (drop_finalizer P S R obj) (λ _. pure {A = Requeue} none)
                                (Keeps-drop_finalizer _ _ obj) (λ _. Keeps-pure none)).at
                              _ refl))
                          (delete_mounted_workspace-IsDeleted P S L R obj.meta.namespace
                            (mounted_workspace P S R obj) tenant client w found some_tenant
                            connected done))
                ]
      ]
