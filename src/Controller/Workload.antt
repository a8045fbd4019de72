-- ===== src/Controller/Workload.antt =====
-- internal/controller/kubernetes/controller.go: what the controller reads and writes of a workload
-- cluster: its phase, its kubeconfig, the Calico manifest and the taints of its nodes.
pub mod Nodes
pub mod Calico
use dbaas.Prelude.{Bool, true, false, List, [], ◌∷◌, none, some, if◌then◌else◌}
use dbaas.Prelude.Text.{Text, codes, ◌==◌}
use dbaas.Prelude.Dict
use dbaas.Prelude.Dict.{lookup}
use dbaas.Exec.{
  errorf, wrap, Result, ok, err, is_not_found, Exec, pure, raise, lift, attempt, or_wrap, ◌>>=◌,
  ◌>>◌,
}
use dbaas.Cluster.{
  Server, Key, management, remote, RestConfig, Document, Mapping, Apply, Kubernetes, CapiCluster,
  capi_cluster, secret, config_map, ConfigMap, node, Node, Secret,
}
use dbaas.Controller.Env.{Packages}
use dbaas.Controller.Proxy.{kubeconfig_key}
use dbaas.Controller.Taints.{desired_control_plane_taints}

-- An object of the cluster that the controller runs in.
abbrev pub management_key : Text → Text → Key
management_key namespace name = record { endpoint = management; namespace = namespace; name = name }

abbrev pub phase_ready : Text
phase_ready = codes "Ready"

abbrev pub phase_connecting : Text
phase_connecting = codes "Connecting"

abbrev pub phase_initializing : Text
phase_initializing = codes "Initializing"

module _ (P : Packages) {W : Type 0} (S : Server W) where
  unfoldable pub phase_of_cluster : Text → Text → Result CapiCluster → Exec W (Bool × Text)
  phase_of_cluster namespace name (ok c) =
      if P.is_status_condition_true c.conditions (codes "Available")
      then pure (true, phase_ready)
      else if c.phase == []
      then pure (false, phase_initializing)
      else pure (false, phase_connecting)
  phase_of_cluster namespace name (err e) =
      if is_not_found e
      then pure (false, phase_initializing)
      else raise (wrap "getting CAPI Cluster %s/%s: %w" (namespace ∷ name ∷ []) e)

  -- `workloadClusterPhase`
  unfoldable pub workload_cluster_phase : Text → Text → Exec W (Bool × Text)
  workload_cluster_phase namespace name = do
    c ← attempt (S.get capi_cluster (management_key namespace name))
    phase_of_cluster namespace name c

  unfoldable pub kubeconfig_found : Text → Text → Result Secret → Exec W Bool
  kubeconfig_found namespace name (ok s) = pure true
  kubeconfig_found namespace name (err e) =
      if is_not_found e
      then pure false
      else raise (wrap "getting kubeconfig secret for %s/%s: %w" (namespace ∷ name ∷ []) e)

  -- `clusterKubeconfigExists`
  unfoldable pub cluster_kubeconfig_exists : Text → Text → Exec W Bool
  cluster_kubeconfig_exists namespace name = do
    s ← attempt (S.get secret (kubeconfig_key namespace name))
    kubeconfig_found namespace name s

  -- `workloadRESTConfig`
  unfoldable pub workload_rest_config : Text → Text → Exec W RestConfig
  workload_rest_config namespace name = do
    s ←
        or_wrap "getting kubeconfig secret %s/%s-kubeconfig: %w" (namespace ∷ name ∷ [])
          (S.get secret (kubeconfig_key namespace name))
    or_wrap "building workload kubeconfig for %s/%s: %w" (namespace ∷ name ∷ [])
        (lift (P.rest_config (Dict.read (codes "value") s.value)))

  -- The apply request of a document: only a namespaced kind has a namespace in its path.
  unfoldable pub apply_request : RestConfig → Document → Mapping → Text → Apply
  apply_request cfg d m body = record {
    endpoint = remote cfg;
    resource = m.resource;
    namespace = if m.namespaced then some d.namespace else none;
    name = d.name;
    body = body;
  }

  -- One round of the loop of `ensureCalicoInstalled`, on a decoded document.
  unfoldable pub apply_document : RestConfig → Document → Exec W (Unit {0})
  apply_document cfg d = if d.is_empty then pure tt else (do
    m ←
        or_wrap "mapping %s: %w" (d.group_version_kind ∷ [])
          (S.rest_mapping (remote cfg) d.group_version_kind)
    body ← or_wrap "marshalling %s %s: %w" (d.kind ∷ d.name ∷ []) (lift d.body)
    or_wrap "applying %s %s: %w" (d.kind ∷ d.name ∷ []) (S.apply (apply_request cfg d m body)))

  -- The loop, up to the end of the stream or the first error.
  unfoldable pub apply_documents : RestConfig → List (Result Document) → Exec W (Unit {0})
  apply_documents cfg [] = pure tt
  apply_documents cfg (err e ∷ ds) = raise (wrap "decoding calico manifest: %w" [] e)
  apply_documents cfg (ok d ∷ ds) = apply_document cfg d >> apply_documents cfg ds

  unfoldable pub calico_manifest : ConfigMap → Exec W Text
  calico_manifest c =
      let manifest = Dict.read (codes "calico.yaml") c.value in
      if manifest == []
      then raise (errorf "configmap dbaas-calico is missing calico.yaml" [])
      else pure manifest

  -- `ensureCalicoInstalled`
  unfoldable pub ensure_calico_installed : Text → Text → Exec W (Unit {0})
  ensure_calico_installed namespace name = do
    c ←
        or_wrap "getting dbaas-calico configmap: %w" []
          (S.get config_map (management_key (codes "default") (codes "dbaas-calico")))
    manifest ← calico_manifest c
    cfg ← workload_rest_config namespace name
    or_wrap "building workload dynamic client: %w" [] (lift (S.new_client cfg))
    or_wrap "building workload discovery client: %w" [] (lift (S.new_client cfg))
    apply_documents cfg (P.decode manifest)

  -- One round of the loop of `reconcileControlPlaneScheduling`.
  unfoldable pub update_node : RestConfig → Bool → Node → Exec W (Unit {0})
  update_node cfg allow_scheduling n =
      let (updated, changed) = desired_control_plane_taints n.taints allow_scheduling in
      if changed
      then or_wrap "updating taints for node %s: %w" (n.meta.name ∷ []) (
          S.update node (record { endpoint = remote cfg; namespace = []; name = n.meta.name })
            (record n { taints = updated }))
      else pure tt

  unfoldable pub update_nodes : RestConfig → Bool → List Node → Exec W (Unit {0})
  update_nodes cfg allow_scheduling [] = pure tt
  update_nodes cfg allow_scheduling (n ∷ ns) =
      update_node cfg allow_scheduling n >> update_nodes cfg allow_scheduling ns

  -- The default is to allow regular pods on control-plane nodes.
  unfoldable pub allows_scheduling : Kubernetes → Bool
  allows_scheduling obj = elim obj.allow_scheduling_on_control_planes [ some b ↦ b | none ↦ true ]

  -- `reconcileControlPlaneScheduling`
  unfoldable pub reconcile_control_plane_scheduling : Kubernetes → Exec W (Unit {0})
  reconcile_control_plane_scheduling obj = do
    cfg ← workload_rest_config obj.meta.namespace obj.meta.name
    or_wrap "building workload kubernetes client: %w" [] (lift (S.new_client cfg))
    nodes ←
        or_wrap "listing control-plane nodes: %w" []
          (S.list node (remote cfg) [] (codes "node-role.kubernetes.io/control-plane"))
    update_nodes cfg (allows_scheduling obj) nodes
