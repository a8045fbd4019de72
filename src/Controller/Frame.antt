-- ===== src/Controller/Frame.antt =====
-- The Kubernetes objects under the steps of `Reconcile` behind the finalizer.
use dbaas.Prelude.{Option, ◌≢◌, inl, arith}
use dbaas.Prelude.Text.{Text}
use dbaas.Exec.Keeps.{Keeps}
use dbaas.Cluster.{
  Server, Key, Endpoint, management, remote, RestConfig, Document, Kind, kubernetes, Kubernetes,
  node, Node, workspace, Workspace, capi_cluster, CapiCluster, Mapping,
}
use dbaas.Cluster.Lawful.{IsLawful}
use dbaas.Cluster.Lawful.Frame
use dbaas.Controller.Env.{Packages, Reconciler}
use dbaas.Controller.Workload.{management_key, apply_request}
use dbaas.Controller.Mount.{delete_mounted_workspace}
use dbaas.Controller.Reconcile.{reconcile_live}
use dbaas.Controller.Steps
use dbaas.Controller.Steps.Whole
use dbaas.Controller.Steps.{Requests}

remote-ne-management : (cfg : RestConfig) → remote cfg ≢ management
remote-ne-management cfg = ground arith

node-ne-kubernetes : node ≢ kubernetes
node-ne-kubernetes = ground arith

workspace-ne-kubernetes : workspace ≢ kubernetes
workspace-ne-kubernetes = ground arith

capi_cluster-ne-kubernetes : capi_cluster ≢ kubernetes
capi_cluster-ne-kubernetes = ground arith

module _ (P : Packages) {W : Type 0} (S : Server W) (L : IsLawful S) (R : Reconciler)
    (namespace name : Text) (o : Option Kubernetes) where
  -- The servers hold `o` as the Kubernetes object.
  abbrev pub HoldsObject : W → Type 0
  HoldsObject = Frame.Holds S L kubernetes (management_key namespace name) o

  get_rule : (k : Kind) (key : Key) → Keeps HoldsObject (S.get k key)
  get_rule = Frame.Keeps-get S L kubernetes (management_key namespace name) o

  list_rule : (k : Kind) (e : Endpoint) (ns s : Text) → Keeps HoldsObject (S.list k e ns s)
  list_rule = Frame.Keeps-list S L kubernetes (management_key namespace name) o

  mapping_rule : (e : Endpoint) (kind : Text) → Keeps HoldsObject (S.rest_mapping e kind)
  mapping_rule = Frame.Keeps-mapping S L kubernetes (management_key namespace name) o

  apply_rule :
      (cfg : RestConfig) (d : Document) (m : Mapping) (body : Text)
      → Keeps HoldsObject (S.apply (apply_request P S cfg d m body))
  unfolding apply_request
  apply_rule cfg d m body =
      Frame.Keeps-apply S L kubernetes (management_key namespace name) o _
        (remote-ne-management cfg)

  update_node_rule : (key : Key) (n : Node) → Keeps HoldsObject (S.update node key n)
  update_node_rule key n =
      Frame.Keeps-update S L kubernetes (management_key namespace name) o node key n
        (inl node-ne-kubernetes)

  create_rule : (key : Key) (x : Workspace) → Keeps HoldsObject (S.create workspace key x)
  create_rule key x =
      Frame.Keeps-create S L kubernetes (management_key namespace name) o workspace key x
        (inl workspace-ne-kubernetes)

  delete_rule : (key : Key) → Keeps HoldsObject (S.delete workspace key)
  delete_rule key =
      Frame.Keeps-delete S L kubernetes (management_key namespace name) o workspace key
        (inl workspace-ne-kubernetes) (L.contains_management key)

  patch_rule : (key : Key) (x y : CapiCluster) → Keeps HoldsObject (S.patch capi_cluster key x y)
  patch_rule key x y =
      Frame.Keeps-patch S L kubernetes (management_key namespace name) o capi_cluster key x y
        (inl capi_cluster-ne-kubernetes)

  object_requests : Requests P S HoldsObject (λ cfg. Unit {0})
  object_requests = record {
    get_rule = get_rule;
    list_rule = list_rule;
    mapping_rule = mapping_rule;
    apply_rule = λ cfg d m body far. apply_rule cfg d m body;
    update_node_rule = update_node_rule;
    create_rule = create_rule;
    patch_rule = patch_rule;
    config_far = λ w h ns n s cfg got made. tt;
  }

  pub Keeps-reconcile_live : (obj : Kubernetes) → Keeps HoldsObject (reconcile_live P S R obj)
  Keeps-reconcile_live = Steps.Keeps-reconcile_live P S object_requests R

  pub Keeps-delete_mounted_workspace :
      (id ws : Text) → Keeps HoldsObject (delete_mounted_workspace P S R id ws)
  Keeps-delete_mounted_workspace id ws =
      Whole.Keeps-delete_mounted_workspace P S object_requests R ws (λ client. delete_rule _) id
