-- ===== src/Tests/Controller.antt =====
-- The controller of Kubernetes objects.
use dbaas.Prelude.{◌≡◌, ◌≢◌, refl, true, false, [], some, ◌⊎◌, sym, ◌∙◌}
use dbaas.Cluster.{Endpoint, remote, workspace, kubernetes, Kubernetes}
use dbaas.Cluster.Lawful.{IsDeleted}
use dbaas.Prelude.Dict
use dbaas.Controller.Mount.Laws.{IsMounted, delete_mounted_workspace-IsDeleted}
use dbaas.Controller.Reconcile.Finalizer.{reconcile_live-IsGuarded, finalizer_kept, IsGuarded}
use dbaas.Controller.Reconcile.Outcome.{reconcile_live-IsMounted, reconcile_live-IsPublished}
use dbaas.Controller.Status.Laws.{IsPublished}
use dbaas.Controller.Workload.{
  management_key, workload_cluster_phase, phase_of_cluster, cluster_kubeconfig_exists,
  kubeconfig_found, ensure_calico_installed, calico_manifest, workload_rest_config, apply_documents,
  reconcile_control_plane_scheduling, update_nodes, update_node, allows_scheduling,
}
use dbaas.Exec.{Error, Result, ok, err, ◌>>=◌, attempt, is_not_found, lift, or_wrap, pure}
use dbaas.Tests.Memory.{
  Memory, find_lem, put-same, put, replace, found, write_missing, write_present,
}
use dbaas.Controller.Reconcile.{
  Requeue, ensure_finalizer, reconcile_found, reconcile_live, prepare_workload, mount_if_ready,
  mounted_workspace, publish, published, remote_name, remote_namespace, mount_url, reconcile_delete,
  drop_finalizer,
}
use dbaas.Prelude.Text.{codes, trim_suffix, ◌==◌}
use dbaas.Prelude.Dict.{lookup}
use dbaas.Controller.Mount.{
  workspace_key, consumer_workspace_path_for_cluster, ensure_mounted_workspace, is_of_cluster,
  kcp_client_for_workspace, mount_created, mount_found, path_for_cluster, mounts_object,
  delete_mounted_workspace, mount_deleted,
}
use dbaas.Controller.Names.{derive_mounted_workspace_name, first_non_empty}
use dbaas.Controller.Status.{annotated, patch_cluster, patch_found, patch_status_annotation}
use dbaas.Controller.Taints.{desired_control_plane_taints, is_control_plane_taint, scan, visit}
use dbaas.Tests.Fixtures.{
  config, packages, finalizer_laws, reconciler, object, deleted_object, stored, leaving, server,
  lawful, listed, with_finalizers, has_text, without,
}

abbrev tenant : Endpoint
tenant = remote (config (codes "kcp/clusters/root:c:w"))

abbrev unmount : Memory → Result (Unit {0}) × Memory
unmount = delete_mounted_workspace packages server reconciler (codes "id") (codes "k")

abbrev live : Memory → Result Requeue × Memory
live = reconcile_live packages server reconciler object

abbrev remove : Memory → Result Requeue × Memory
remove = reconcile_delete packages server reconciler deleted_object

-- The results of the runs.
tenant_found :
    (consumer_workspace_path_for_cluster packages server reconciler (codes "id") leaving).0
    ≡ ok (codes "root:c:w")
unfolding ◌>>=◌ ◌==◌ consumer_workspace_path_for_cluster is_of_cluster kcp_client_for_workspace
    path_for_cluster
tenant_found = refl

tenant_some : (codes "root:c:w" == []) ≡ false
unfolding ◌==◌
tenant_some = refl

tenant_connected :
    kcp_client_for_workspace packages server reconciler (codes "root:c:w") ≡ ok tenant
unfolding kcp_client_for_workspace trim_suffix
tenant_connected = refl

unmount_lem : (unmount leaving).0 ≡ ok tt
unfolding ◌>>=◌ found ◌==◌ consumer_workspace_path_for_cluster is_of_cluster
    kcp_client_for_workspace path_for_cluster write_present delete_mounted_workspace mount_deleted
unmount_lem = refl

live_lem : (live stored).0 ≡ ok (some 15)
unfolding workload_cluster_phase ◌>>=◌ phase_of_cluster found cluster_kubeconfig_exists
    kubeconfig_found reconcile_live prepare_workload ensure_calico_installed calico_manifest ◌==◌
    Dict.read workload_rest_config apply_documents reconcile_control_plane_scheduling update_nodes
    update_node consumer_workspace_path_for_cluster ensure_mounted_workspace is_of_cluster
    kcp_client_for_workspace mount_created mount_found path_for_cluster
    derive_mounted_workspace_name first_non_empty mount_if_ready mounted_workspace publish published
    remote_name remote_namespace annotated patch_cluster patch_found patch_status_annotation
    desired_control_plane_taints is_control_plane_taint scan visit allows_scheduling attempt
    is_not_found lift or_wrap pure lookup mount_url write_missing write_present mounts_object
    delete_mounted_workspace mount_deleted reconcile_delete drop_finalizer has_text without put
    replace
live_lem = refl

phase_lem :
    (workload_cluster_phase packages server (codes "id") (codes "k") stored).0
    ≡ ok (true, codes "Ready")
unfolding workload_cluster_phase ◌>>=◌ phase_of_cluster found
phase_lem = refl

kubeconfig_lem :
    (cluster_kubeconfig_exists packages server
      (codes "id")
      (codes "k")
      (workload_cluster_phase packages server (codes "id") (codes "k") stored).1).0
    ≡ ok true
unfolding workload_cluster_phase ◌>>=◌ phase_of_cluster found cluster_kubeconfig_exists
    kubeconfig_found
kubeconfig_lem = refl

remove_lem :
    (o : Kubernetes) × ((remove leaving).1 kubernetes (management_key (codes "id") (codes "k"))
      ≡ some o)
    × (o.meta.finalizers ≡ [])
unfolding workload_cluster_phase ◌>>=◌ phase_of_cluster found cluster_kubeconfig_exists
    kubeconfig_found reconcile_live prepare_workload ensure_calico_installed calico_manifest ◌==◌
    Dict.read workload_rest_config apply_documents reconcile_control_plane_scheduling update_nodes
    update_node consumer_workspace_path_for_cluster ensure_mounted_workspace is_of_cluster
    kcp_client_for_workspace mount_created mount_found path_for_cluster
    derive_mounted_workspace_name first_non_empty mount_if_ready mounted_workspace publish published
    remote_name remote_namespace annotated patch_cluster patch_found patch_status_annotation
    desired_control_plane_taints is_control_plane_taint scan visit allows_scheduling attempt
    is_not_found lift or_wrap pure lookup mount_url write_missing write_present mounts_object
    delete_mounted_workspace mount_deleted reconcile_delete drop_finalizer has_text without put
    replace
remove_lem = (
  with_finalizers deleted_object [],
  put-same kubernetes (management_key (codes "id") (codes "k"))
      (some (with_finalizers deleted_object [])) (unmount leaving).1,
  refl,
)

delete_mounted_workspace-IsDeleted_example :
    IsDeleted workspace
      (lawful.find workspace (workspace_key tenant (codes "k")) (unmount leaving).1)
delete_mounted_workspace-IsDeleted_example =
    delete_mounted_workspace-IsDeleted packages server lawful reconciler (codes "id") (codes "k")
      (codes "root:c:w") tenant leaving tenant_found tenant_some tenant_connected unmount_lem

reconcile_live-IsGuarded_example :
    ((e : Error) × ((ensure_finalizer packages server reconciler object stored).0 ≡ err e)
      × (reconcile_found packages server reconciler (ok object) stored
          ≡ (err e, (ensure_finalizer packages server reconciler object stored).1)))
    ⊎ ((obj' : Kubernetes) × IsGuarded packages finalizer_laws server lawful reconciler
          (codes "id")
          (codes "k")
          obj'
          (reconcile_found packages server reconciler (ok object) stored).1)
reconcile_live-IsGuarded_example =
    reconcile_live-IsGuarded packages finalizer_laws server lawful reconciler object stored refl
      (find_lem listed kubernetes _ stored)

reconcile_live-IsMounted_example :
    IsMounted packages server lawful reconciler
      (codes "id")
      (mounted_workspace packages server reconciler object)
      (remote_name object)
      (remote_namespace object)
      (live stored).1
reconcile_live-IsMounted_example =
    reconcile_live-IsMounted packages server lawful reconciler object stored true true
      (codes "Ready") phase_lem kubeconfig_lem (some 15) refl live_lem

reconcile_live-IsPublished_example :
    IsPublished packages server lawful
      (codes "id")
      (codes "k")
      (record {
        phase = codes "Ready";
        ready = true;
        url = mount_url (codes "http://p/") (codes "id") (codes "k");
        mounted_workspace = mounted_workspace packages server reconciler object;
      })
      (live stored).1
reconcile_live-IsPublished_example =
    reconcile_live-IsPublished packages server lawful reconciler object stored true true
      (codes "Ready") phase_lem kubeconfig_lem (some 15) live_lem

removed :
    lawful.find kubernetes (management_key (codes "id") (codes "k")) (remove leaving).1
    ≢ lawful.find kubernetes (management_key (codes "id") (codes "k")) leaving
removed e =
    let (o, held, bare) = remove_lem in
    let same =
      sym held
      ∙ (sym (find_lem listed kubernetes _ (remove leaving).1)
          ∙ (e ∙ find_lem listed kubernetes _ leaving)) in
    cc

finalizer_kept_example : IsDeleted workspace (
    lawful.find workspace
      (workspace_key tenant (mounted_workspace packages server reconciler deleted_object))
      (remove leaving).1)
finalizer_kept_example =
    finalizer_kept packages finalizer_laws server lawful reconciler deleted_object leaving
      (codes "id") (codes "k") (codes "root:c:w") tenant tenant_found tenant_some tenant_connected
      removed
