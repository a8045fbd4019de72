-- ===== src/System.antt =====
-- The three processes together: cmd/provisioner, cmd/kubernetes-controller and cmd/mock-mongodb, whose
-- requests to the API servers reach them in any order.
pub mod Steps
pub mod Safe
pub mod Deletions
pub mod Kept
pub mod Interrupted
pub mod Setup
use dbaas.Prelude.{false, List, [], ◌∷◌, ◌++◌, ◌≡◌, ◌≢◌}
use dbaas.Prelude.Text.{Text}
use dbaas.Exec.{Result, ok}
use dbaas.Url.{UrlPackage}
use dbaas.Cluster.{
  Server, Key, Endpoint, RestConfig, Kind, workspace, capi_cluster, mongodb, Kubernetes,
}
use dbaas.Cluster.Calls.{Call, Oracle, traced, Merged}
use dbaas.Cluster.Lawful.{IsLawful}
use dbaas.Controller.Env.{Packages, Reconciler}
use dbaas.Controller.Proxy.{handler}
use dbaas.Controller.Reconcile.{reconcile, mounted_workspace}
use dbaas.Mck.{reconcile_mongodb}
use dbaas.Provisioner.Env.{Provisioner, client_for_workspace, cluster_key}
use dbaas.Provisioner.Headlamp.{MapOrder, run_task}
use dbaas.Provisioner.Host.{NetPackage}
use dbaas.Provisioner.Kubeconfig.{Config}
use dbaas.Provisioner.Stays.{Fresh, Test}
use dbaas.Provisioner.Workspaces.{Task}
use dbaas.Web.Forwarded.{Request}
use dbaas.Web.Handlers.{WebPackage}
use dbaas.Web.Serve.{serve, reconcile_round, route, to_delete}
use dbaas.Controller.Steps.Whole.{IsLeaving}
use dbaas.Controller.Mount.{workspace_key}

-- What the processes are started with, and the packages that they call.
pub record Setting : Type 0 where
  pub net : NetPackage
  pub web : WebPackage
  pub url : UrlPackage
  pub load : Text → Result Config
  pub write : Config → Result Text
  pub map_order : MapOrder
  pub provisioner : Provisioner
  pub packages : Packages
  pub reconciler : Reconciler
  pub transport_for : RestConfig → Result (Unit {0})
  pub phase_running : Text

-- What a process runs beside others: an answer of the web server, a round of the periodic work, a
-- task that was started with `go`, an answer of the mount proxy, and a `Reconcile` of either
-- controller.
pub data Activity : Type 0 where
  serving : Request → Activity
  ticking : Text → Activity
  syncing : Text → Task → Activity
  proxying : Text → Activity
  reconciling : Text → Text → Activity
  mocking : Key → Activity

module _ (E : Setting) where
  -- The world behind it.
  unfoldable pub behind : {W : Type 0} → Server W → Activity → W → W
  behind S (serving r) w = (serve E.net E.web E.url E.write S E.provisioner r w).1
  behind S (ticking now) w =
      (reconcile_round E.load E.write E.map_order E.url S E.provisioner now w).1
  behind S (syncing now t) w = (run_task E.load E.write E.url S E.provisioner E.map_order now t w).1
  behind S (proxying path) w =
      (handler E.packages.rest_config E.packages.url.parse E.transport_for S path w).1
  behind S (reconciling namespace name) w = (reconcile E.packages S E.reconciler namespace name w).1
  behind S (mocking key) w = (reconcile_mongodb E.phase_running S key w).1

  -- An activity that has servers delete a workspace: the web server, on a request for that
  -- workspace, and the controller of Kubernetes objects, on an object that is about to go, for the
  -- workspace of the name that it derives from the object.
  pub data Asks {W : Type 0} (S : Server W) : Activity → Key → Type 0 where
    by_request :
        (r : Request) (name : Text) (client : Endpoint)
        → route r.method r.path ≡ to_delete name
        → client_for_workspace E.url S E.provisioner E.provisioner.consumers_workspace ≡ ok client
        → Asks S (serving r) (cluster_key client name)
    by_object :
        (namespace name : Text) (obj : Kubernetes) (client : Endpoint)
        → IsLeaving E.packages S namespace name obj
        → Asks S
            (reconciling namespace name)
            (workspace_key client (mounted_workspace E.packages S E.reconciler obj))

  module _ (new_client : RestConfig → Result (Unit {0})) where
    -- All requests of an activity that gets these answers.
    unfoldable pub requests_of : Oracle → Activity → List Call
    unfolding behind
    requests_of oracle a = behind (traced new_client oracle) a []

    -- What the servers have got at some moment: every activity has made a first part of its
    -- requests, all of them or those before it is held up or killed, and these are interleaved.
    pub data Moment : List Call → Type 0 where
      idle : Moment []
      beside :
          (a : Activity) (oracle : Oracle) (pending made older calls : List Call)
          → pending ++ made ≡ requests_of oracle a
          → Moment older
          → Merged made older calls
          → Moment calls

-- What the program asks for, whatever the servers answer: a role binding that it writes is the
-- desired one, and it patches and deletes no object of the setup of a workspace.
abbrev pub IsSafe : Call → Type 0
IsSafe (Call.create_call k key x) = Fresh k x
IsSafe (Call.update_call k key x) = Test k x
IsSafe (Call.patch_call k key x y) = k ≡ capi_cluster
IsSafe (Call.patch_status_call k key x y) = k ≡ mongodb
IsSafe (Call.delete_call k key) = k ≡ workspace
IsSafe _ = Unit

-- A request that does not delete the workspace of an endpoint, nor one above it, and applies no
-- manifest to it.
abbrev pub Spares : {W : Type 0} {S : Server W} → IsLawful S → Endpoint → Call → Type 0
Spares L client (Call.delete_call k key) = L.contains key client ≡ false
Spares L client (Call.apply_call a) = a.endpoint ≢ client
Spares L client _ = Unit

-- A request that keeps the setup in the workspace of the endpoint.
abbrev pub IsHarmless : {W : Type 0} {S : Server W} → IsLawful S → Endpoint → Call → Type 0
IsHarmless L client c = IsSafe c × Spares L client c
