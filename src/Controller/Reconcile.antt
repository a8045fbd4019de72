-- ===== src/Controller/Reconcile.antt =====
-- internal/controller/kubernetes/controller.go: `Reconcile` and `reconcileDelete`.
pub mod Finalizer
pub mod Untouched
pub mod Outcome
pub mod Routes
use dbaas.Prelude.{
  ℕ, Bool, true, false, ◌&&◌, List, [], ◌∷◌, ◌++◌, Option, none, some, if◌then◌else◌,
}
use dbaas.Prelude.Text.{Text, codes, slash, ◌==◌, trim_suffix}
use dbaas.Prelude.Dict
use dbaas.Exec.{
  Error, wrap, Result, ok, err, is_not_found, Exec, pure, raise, lift, attempt, or_wrap,
  wrap_result, ◌>>=◌, ◌>>◌,
}
use dbaas.Cluster.{Server, Kubernetes, kubernetes, Meta}
use dbaas.Controller.Env.{Packages, Reconciler, StatusAnnotation}
use dbaas.Controller.Names.{first_non_empty, derive_mounted_workspace_name, default_namespace}
use dbaas.Controller.Mount.{ensure_mounted_workspace, delete_mounted_workspace}
use dbaas.Controller.Workload.{
  management_key, workload_cluster_phase, cluster_kubeconfig_exists, ensure_calico_installed,
  reconcile_control_plane_scheduling, phase_ready, phase_connecting,
}
use dbaas.Controller.Status.{patch_status_annotation}

abbrev pub kubernetes_finalizer : Text
kubernetes_finalizer = codes "dbaas.mongodb.com/kubernetes-mount"

-- `ctrl.Result`: the seconds after which the object is looked at again, if it is.
abbrev pub Requeue : Type 0
Requeue = Option ℕ

-- The name and the namespace that the object has in the tenant's workspace.
unfoldable pub remote_name : Kubernetes → Text
remote_name obj = first_non_empty (
    Dict.read (codes "syncagent.kcp.io/remote-object-name") obj.meta.annotations
    ∷ obj.meta.name
    ∷ [])

unfoldable pub remote_namespace : Kubernetes → Text
remote_namespace obj = first_non_empty (
    Dict.read (codes "syncagent.kcp.io/remote-object-namespace") obj.meta.annotations
    ∷ default_namespace
    ∷ [])

-- The URL of a ready cluster at the mount proxy.
unfoldable pub mount_url : Text → Text → Text → Text
mount_url proxy_base_url namespace name =
    trim_suffix proxy_base_url slash ++ (codes "/mounts/" ++ (namespace ++ slash ∷ name))

-- The status that is published: the phase of the Cluster API is overridden once the cluster is
-- ready, by whether its kubeconfig is there.
unfoldable pub published : Bool → Bool → Text → Text → Text → StatusAnnotation
published cluster_ready kubeconfig_ready phase url workspace = record {
  phase =
      if cluster_ready && kubeconfig_ready
      then phase_ready
      else if cluster_ready
      then phase_connecting
      else phase;
  ready = cluster_ready && kubeconfig_ready;
  url = if cluster_ready && kubeconfig_ready then url else [];
  mounted_workspace = workspace;
}

module _ (P : Packages) {W : Type 0} (S : Server W) (R : Reconciler) where
  unfoldable pub mounted_workspace : Kubernetes → Text
  mounted_workspace obj =
      derive_mounted_workspace_name P.sha1 (remote_name obj) (remote_namespace obj)

  -- `if controllerutil.AddFinalizer(...) { r.Update(...) }`: the object goes on with its finalizer.
  unfoldable pub ensure_finalizer : Kubernetes → Exec W Kubernetes
  ensure_finalizer obj =
      let (obj', added) = P.add_finalizer obj kubernetes_finalizer in
      if added
      then (do
        or_wrap "adding finalizer: %w" []
            (S.update kubernetes (management_key obj.meta.namespace obj.meta.name) obj')
        pure obj')
      else pure obj'

  -- The work on the workload cluster, once its kubeconfig is there.
  unfoldable pub prepare_workload : Bool → Kubernetes → Exec W (Unit {0})
  prepare_workload kubeconfig_ready obj =
      if kubeconfig_ready
      then (do
        ensure_calico_installed P S obj.meta.namespace obj.meta.name
        reconcile_control_plane_scheduling P S obj)
      else pure tt

  -- The mount, once the cluster is ready too.
  unfoldable pub mount_if_ready : Bool → Kubernetes → Exec W (Unit {0})
  mount_if_ready ready obj =
      if ready
      then ensure_mounted_workspace P S R obj.meta.namespace (mounted_workspace obj)
          (remote_name obj) (remote_namespace obj)
      else pure tt

  unfoldable pub publish : Bool → Bool → Text → Kubernetes → Exec W (Unit {0})
  publish cluster_ready kubeconfig_ready phase obj =
      patch_status_annotation P S obj.meta.namespace obj.meta.name (
        published cluster_ready kubeconfig_ready phase
          (mount_url R.proxy_base_url obj.meta.namespace obj.meta.name) (mounted_workspace obj))

  -- `Reconcile`, behind the finalizer.
  unfoldable pub reconcile_live : Kubernetes → Exec W Requeue
  reconcile_live obj = do
    (cluster_ready, phase) ← workload_cluster_phase P S obj.meta.namespace obj.meta.name
    kubeconfig_ready ← cluster_kubeconfig_exists P S obj.meta.namespace obj.meta.name
    prepare_workload kubeconfig_ready obj
    mount_if_ready (cluster_ready && kubeconfig_ready) obj
    publish cluster_ready kubeconfig_ready phase obj
    pure (some 15)

  -- `reconcileDelete`
  unfoldable pub drop_finalizer : Kubernetes → Exec W (Unit {0})
  drop_finalizer obj =
      let (obj', removed) = P.remove_finalizer obj kubernetes_finalizer in
      if removed
      then or_wrap "removing finalizer: %w" []
          (S.update kubernetes (management_key obj.meta.namespace obj.meta.name) obj')
      else pure tt

  unfoldable pub reconcile_delete : Kubernetes → Exec W Requeue
  reconcile_delete obj =
      if P.contains_finalizer obj kubernetes_finalizer
      then (do
        delete_mounted_workspace P S R obj.meta.namespace (mounted_workspace obj)
        drop_finalizer obj
        pure none)
      else pure none

  unfoldable pub reconcile_found : Result Kubernetes → Exec W Requeue
  reconcile_found (err e) = if is_not_found e then pure none else raise e
  reconcile_found (ok obj) =
      if obj.meta.deleting
      then reconcile_delete obj
      else (do obj' ← ensure_finalizer obj; reconcile_live obj')

  -- `Reconcile`
  unfoldable pub reconcile : Text → Text → Exec W Requeue
  reconcile namespace name = do
    found ← attempt (S.get kubernetes (management_key namespace name))
    reconcile_found found
