-- ===== src/Controller/Steps.antt =====
-- The steps of `Reconcile` behind its finalizer, over what their requests keep.
pub mod Whole
use dbaas.Prelude.{Bool, List, [], ◌∷◌, ◌≡◌}
use dbaas.Prelude.Text.{Text, codes}
use dbaas.Prelude.Dict
use Prim.Native.String.{String}
use dbaas.Exec.{Result, ok, err, lift, or_wrap, wrap_result, ◌>>=◌}
use dbaas.Exec.Keeps.{
  Keeps, Keeps-bind, Keeps-bind_known, Keeps-or_wrap, Keeps-lift, Keeps-pure, keeps_rules,
}
use dbaas.Exec.Ensures.{bind-ok}
use dbaas.Cluster.{
  Server, Key, Endpoint, RestConfig, Document, Kind, Kubernetes, secret, config_map, node, Node,
  workspace, Workspace, capi_cluster, CapiCluster, Secret, ConfigMap, Mapping,
}
use dbaas.Controller.Env.{Packages, Reconciler, StatusAnnotation}
use dbaas.Controller.Proxy.{kubeconfig_key}
use dbaas.Controller.Workload.{
  phase_of_cluster, workload_cluster_phase, kubeconfig_found, cluster_kubeconfig_exists,
  workload_rest_config, apply_request, apply_document, apply_documents, calico_manifest,
  ensure_calico_installed, update_node, update_nodes, reconcile_control_plane_scheduling,
}
use dbaas.Controller.Mount.{
  consumer_workspace_path_for_cluster, mount_created, mount_found, ensure_mounted_workspace,
}
use dbaas.Controller.Status.{patch_cluster, patch_found, patch_status_annotation}
use dbaas.Controller.Reconcile.{prepare_workload, mount_if_ready, publish, reconcile_live}

-- The requests that `Reconcile` makes behind its finalizer, each of which is to keep a predicate. Only
-- what is applied to a workload cluster depends on its config.
pub record Requests (P : Packages) {W : Type 0} (S : Server W) (K : W → Type 0)
    (Far : RestConfig → Type 0) : Type 0 where
  pub get_rule : (k : Kind) (key : Key) → Keeps K (S.get k key)
  pub list_rule : (k : Kind) (e : Endpoint) (ns s : Text) → Keeps K (S.list k e ns s)
  pub mapping_rule : (e : Endpoint) (kind : Text) → Keeps K (S.rest_mapping e kind)
  pub apply_rule :
      (cfg : RestConfig) (d : Document) (m : Mapping) (body : Text)
      → Far cfg
      → Keeps K (S.apply (apply_request P S cfg d m body))
  pub update_node_rule : (key : Key) (n : Node) → Keeps K (S.update node key n)
  pub create_rule : (key : Key) (x : Workspace) → Keeps K (S.create workspace key x)
  pub patch_rule : (key : Key) (x y : CapiCluster) → Keeps K (S.patch capi_cluster key x y)
  pub config_far :
      (w : W)
      → K w
      → (namespace name : Text) (s : Secret) (cfg : RestConfig)
      → (S.get secret (kubeconfig_key namespace name) w).0 ≡ ok s
      → P.rest_config (Dict.read (codes "value") s.value) ≡ ok cfg
      → Far cfg

or_wrap-ok :
    {A : Type 0} (f : String) (args : List Text) (r : Result A) (a : A)
    → wrap_result f args r ≡ ok a
    → r ≡ ok a
or_wrap-ok f args (ok b) a e = e
or_wrap-ok f args (err x) a e = cc

module _ {W : Type 0} {K : W → Type 0} {Far : RestConfig → Type 0} (P : Packages) (S : Server W)
    (Q : Requests P S K Far) (R : Reconciler) where
  Keeps-phase_of_cluster :
      (ns n : Text) (r : Result CapiCluster) → Keeps K (phase_of_cluster P S ns n r)
  unfolding phase_of_cluster
  Keeps-phase_of_cluster ns n (ok c) = search keeps_rules
  Keeps-phase_of_cluster ns n (err e) = search keeps_rules

  pub Keeps-workload_cluster_phase : (ns n : Text) → Keeps K (workload_cluster_phase P S ns n)
  unfolding workload_cluster_phase
  Keeps-workload_cluster_phase ns n = search (keeps_rules, Q.get_rule, Keeps-phase_of_cluster)

  Keeps-kubeconfig_found : (ns n : Text) (r : Result Secret) → Keeps K (kubeconfig_found P S ns n r)
  unfolding kubeconfig_found
  Keeps-kubeconfig_found ns n (ok s) = search keeps_rules
  Keeps-kubeconfig_found ns n (err e) = search keeps_rules

  pub Keeps-cluster_kubeconfig_exists : (ns n : Text) → Keeps K (cluster_kubeconfig_exists P S ns n)
  unfolding cluster_kubeconfig_exists
  Keeps-cluster_kubeconfig_exists ns n = search (keeps_rules, Q.get_rule, Keeps-kubeconfig_found)

  Keeps-workload_rest_config : (ns n : Text) → Keeps K (workload_rest_config P S ns n)
  unfolding workload_rest_config
  Keeps-workload_rest_config ns n = search (keeps_rules, Q.get_rule)

  -- A config that is read comes from a secret that the servers hand out.
  workload_rest_config-Far :
      (ns n : Text) (w : W)
      → K w
      → (cfg : RestConfig) → (workload_rest_config P S ns n w).0 ≡ ok cfg
      → Far cfg
  unfolding workload_rest_config ◌>>=◌
  workload_rest_config-Far ns n w h cfg done =
      let (s, got, rest) =
        bind-ok
          (or_wrap "getting kubeconfig secret %s/%s-kubeconfig: %w" (ns ∷ n ∷ [])
            (S.get secret (kubeconfig_key ns n)))
          (λ s.
            or_wrap "building workload kubeconfig for %s/%s: %w" (ns ∷ n ∷ [])
              (lift (P.rest_config (Dict.read (codes "value") s.value))))
          w cfg done in
      Q.config_far w h ns n s cfg (or_wrap-ok _ _ _ s got) (or_wrap-ok _ _ _ cfg rest)

  Keeps-apply_document :
      (cfg : RestConfig) (d : Document) → Far cfg → Keeps K (apply_document P S cfg d)
  unfolding apply_document
  Keeps-apply_document cfg d far =
      search
        (keeps_rules, Q.mapping_rule, λ (m : Mapping) (body : Text). Q.apply_rule cfg d m body far)

  Keeps-apply_documents :
      (cfg : RestConfig) (ds : List (Result Document))
      → Far cfg
      → Keeps K (apply_documents P S cfg ds)
  unfolding apply_documents
  Keeps-apply_documents cfg [] far = search keeps_rules
  Keeps-apply_documents cfg (err e ∷ ds) far = search keeps_rules
  Keeps-apply_documents cfg (ok d ∷ ds) far =
      Keeps-bind _ _ (Keeps-apply_document cfg d far) (λ _. Keeps-apply_documents cfg ds far)

  Keeps-calico_manifest : (c : ConfigMap) → Keeps K (calico_manifest P S c)
  unfolding calico_manifest
  Keeps-calico_manifest c = search keeps_rules

  Keeps-ensure_calico_installed : (ns n : Text) → Keeps K (ensure_calico_installed P S ns n)
  unfolding ensure_calico_installed
  Keeps-ensure_calico_installed ns n =
      Keeps-bind _ _ (Keeps-or_wrap _ _ _ (Q.get_rule config_map _)) (λ c.
        Keeps-bind _ _ (Keeps-calico_manifest c) (λ manifest.
          Keeps-bind_known Far _ _ (Keeps-workload_rest_config ns n) (workload_rest_config-Far ns n)
            (λ cfg far. Keeps-bind _ _ (Keeps-or_wrap _ _ _ (Keeps-lift _)) (λ _.
              Keeps-bind _ _ (Keeps-or_wrap _ _ _ (Keeps-lift _))
                (λ _. Keeps-apply_documents cfg (P.decode manifest) far)))))

  Keeps-update_node :
      (cfg : RestConfig) (allow : Bool) (n : Node) → Keeps K (update_node P S cfg allow n)
  unfolding update_node
  Keeps-update_node cfg allow n = search (keeps_rules, Q.update_node_rule)

  Keeps-update_nodes :
      (cfg : RestConfig) (allow : Bool) (ns : List Node) → Keeps K (update_nodes P S cfg allow ns)
  unfolding update_nodes
  Keeps-update_nodes cfg allow [] = search keeps_rules
  Keeps-update_nodes cfg allow (n ∷ ns) =
      search (keeps_rules, Keeps-update_node cfg allow n, Keeps-update_nodes cfg allow ns)

  Keeps-reconcile_control_plane_scheduling :
      (obj : Kubernetes) → Keeps K (reconcile_control_plane_scheduling P S obj)
  unfolding reconcile_control_plane_scheduling
  Keeps-reconcile_control_plane_scheduling obj =
      search (keeps_rules, Q.list_rule, Keeps-workload_rest_config, Keeps-update_nodes) depth 10

  pub Keeps-prepare_workload :
      (b : Bool) (obj : Kubernetes) → Keeps K (prepare_workload P S R b obj)
  unfolding prepare_workload
  Keeps-prepare_workload b obj =
      search (keeps_rules, Keeps-ensure_calico_installed, Keeps-reconcile_control_plane_scheduling)

  pub Keeps-consumer_path : (id : Text) → Keeps K (consumer_workspace_path_for_cluster P S R id)
  unfolding consumer_workspace_path_for_cluster
  Keeps-consumer_path id = search (keeps_rules, Q.list_rule)

  Keeps-mount_created :
      (tenant n : Text) (r : Result (Unit {0})) → Keeps K (mount_created P S R tenant n r)
  unfolding mount_created
  Keeps-mount_created tenant n (ok _) = search keeps_rules
  Keeps-mount_created tenant n (err e) = search keeps_rules

  Keeps-mount_found :
      (client : Endpoint) (tenant n rn rns : Text) (r : Result Workspace)
      → Keeps K (mount_found P S R client tenant n rn rns r)
  unfolding mount_found
  Keeps-mount_found client tenant n rn rns (ok x) = search keeps_rules
  Keeps-mount_found client tenant n rn rns (err e) =
      search (keeps_rules, Q.create_rule, Keeps-mount_created)

  pub Keeps-mount_if_ready : (b : Bool) (obj : Kubernetes) → Keeps K (mount_if_ready P S R b obj)
  unfolding mount_if_ready ensure_mounted_workspace
  Keeps-mount_if_ready b obj =
      search (keeps_rules, Q.get_rule, Keeps-consumer_path, Keeps-mount_found) depth 10

  Keeps-patch_found :
      (ns n : Text) (s : StatusAnnotation) (r : Result CapiCluster)
      → Keeps K (patch_found P S ns n s r)
  unfolding patch_found patch_cluster
  Keeps-patch_found ns n s (ok c) = search (keeps_rules, Q.patch_rule)
  Keeps-patch_found ns n s (err e) = search keeps_rules

  pub Keeps-publish :
      (a b : Bool) (phase : Text) (obj : Kubernetes) → Keeps K (publish P S R a b phase obj)
  unfolding publish patch_status_annotation
  Keeps-publish a b phase obj = search (keeps_rules, Q.get_rule, Keeps-patch_found)

  -- The whole of it.
  pub Keeps-reconcile_live : (obj : Kubernetes) → Keeps K (reconcile_live P S R obj)
  unfolding reconcile_live
  Keeps-reconcile_live obj = Keeps-bind _ _ (Keeps-workload_cluster_phase _ _) (λ phase.
      Keeps-bind _ _ (Keeps-cluster_kubeconfig_exists _ _) (λ ready.
        Keeps-bind _ _ (Keeps-prepare_workload _ obj) (λ _.
          Keeps-bind _ _ (Keeps-mount_if_ready _ obj)
            (λ _. Keeps-bind _ _ (Keeps-publish _ _ _ obj) (λ _. Keeps-pure _)))))
