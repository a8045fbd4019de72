-- ===== src/Controller/Steps/Whole.antt =====
-- The whole of `Reconcile`, over what its requests keep.
use dbaas.Prelude.Text.{Text}
use dbaas.Exec.{Result, ok, err}
use dbaas.Exec.Keeps.{
  Keeps, Keeps-if_known, Keeps-bind_answer, Keeps-bind, Keeps-attempt, Keeps-if, Keeps-or_wrap,
  Keeps-lift, Keeps-pure, Keeps-raise, keeps_rules,
}
use dbaas.Cluster.{Server, Key, RestConfig, kubernetes, Kubernetes, workspace}
use dbaas.Controller.Env.{Packages, Reconciler}
use dbaas.Controller.Reconcile.{mounted_workspace, kubernetes_finalizer}
use dbaas.Cluster.{Endpoint}
use dbaas.Controller.Mount.{workspace_key, mount_deleted, delete_mounted_workspace}
use dbaas.Controller.Reconcile.{
  ensure_finalizer, drop_finalizer, reconcile_delete, reconcile_found, reconcile,
}
use dbaas.Controller.Steps.{Requests, Keeps-consumer_path, Keeps-reconcile_live}
use dbaas.Controller.Workload.{management_key}
use dbaas.Prelude.{◌≡◌, true}

module _ (P : Packages) {W : Type 0} (S : Server W) where
  -- An object that is to be deleted: it was read, its deletion was asked for, and it has the
  -- controller's finalizer.
  abbrev pub IsLeaving : Text → Text → Kubernetes → Type 0
  IsLeaving namespace name obj =
      ((w : W) × ((S.get kubernetes (management_key namespace name) w).0 ≡ ok obj))
      × (obj.meta.deleting ≡ true)
      × (P.contains_finalizer obj kubernetes_finalizer ≡ true)

module _ {W : Type 0} {K : W → Type 0} {Far : RestConfig → Type 0} (P : Packages) (S : Server W)
    (Q : Requests P S K Far) (R : Reconciler) where
  module _
      (update_object : (key : Key) (x : Kubernetes) → Keeps K (S.update kubernetes key x)) where
    pub Keeps-ensure_finalizer : (obj : Kubernetes) → Keeps K (ensure_finalizer P S R obj)
    unfolding ensure_finalizer
    Keeps-ensure_finalizer obj =
        Keeps-if _ _ _
          (Keeps-bind _ _ (Keeps-or_wrap _ _ _ (update_object _ _)) (λ _. Keeps-pure _))
          (Keeps-pure _)

    Keeps-drop_finalizer : (obj : Kubernetes) → Keeps K (drop_finalizer P S R obj)
    unfolding drop_finalizer
    Keeps-drop_finalizer obj =
        Keeps-if _ _ _ (Keeps-or_wrap _ _ _ (update_object _ _)) (Keeps-pure _)

  module _ (ws : Text)
      (delete_workspace : (client : Endpoint)
        → Keeps K (S.delete workspace (workspace_key client ws))) where
    Keeps-mount_deleted : (r : Result (Unit {0})) → Keeps K (mount_deleted P S R ws r)
    unfolding mount_deleted
    Keeps-mount_deleted (ok _) = search keeps_rules
    Keeps-mount_deleted (err e) = search keeps_rules

    pub Keeps-delete_mounted_workspace :
        (id : Text) → Keeps K (delete_mounted_workspace P S R id ws)
    unfolding delete_mounted_workspace
    Keeps-delete_mounted_workspace id = Keeps-bind _ _ (Keeps-consumer_path P S Q R id) (λ tenant.
        Keeps-if _ _ _ (Keeps-pure _) (
          Keeps-bind _ _ (Keeps-lift _) (λ client.
            Keeps-bind _ _ (Keeps-attempt _ (delete_workspace client)) Keeps-mount_deleted)))

  module _ (namespace name : Text)
      (delete_workspace : (obj : Kubernetes)
        → IsLeaving P S namespace name obj
        → (client : Endpoint)
        → Keeps K (S.delete workspace (workspace_key client (mounted_workspace P S R obj))))
      (update_object : (key : Key) (x : Kubernetes) → Keeps K (S.update kubernetes key x)) where
    Keeps-reconcile_delete :
        (obj : Kubernetes) (w : W)
        → (S.get kubernetes (management_key namespace name) w).0 ≡ ok obj
        → obj.meta.deleting ≡ true
        → Keeps K (reconcile_delete P S R obj)
    unfolding reconcile_delete
    Keeps-reconcile_delete obj w got deleting =
        Keeps-if_known _ _ _
          (λ has.
            Keeps-bind _ _
              (Keeps-delete_mounted_workspace (mounted_workspace P S R obj)
                (delete_workspace obj ((w, got), deleting, has)) _)
              (λ _. Keeps-bind _ _ (Keeps-drop_finalizer update_object obj) (λ _. Keeps-pure _)))
          (λ _. Keeps-pure _)

    Keeps-reconcile_found :
        (r : Result Kubernetes) (w : W)
        → (S.get kubernetes (management_key namespace name) w).0 ≡ r
        → Keeps K (reconcile_found P S R r)
    unfolding reconcile_found
    Keeps-reconcile_found (err e) w got = Keeps-if _ _ _ (Keeps-pure _) (Keeps-raise _)
    Keeps-reconcile_found (ok obj) w got =
        Keeps-if_known _ _ _ (Keeps-reconcile_delete obj w got) (λ _.
          Keeps-bind _ _ (Keeps-ensure_finalizer update_object obj) (Keeps-reconcile_live P S Q R))

    pub Keeps-reconcile : Keeps K (reconcile P S R namespace name)
    unfolding reconcile
    Keeps-reconcile =
        Keeps-bind_answer _ _ (Q.get_rule kubernetes (management_key namespace name))
          Keeps-reconcile_found
