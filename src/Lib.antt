-- ===== src/Lib.antt =====
-- dbaas: kcp workspaces, their credentials, and Kubernetes clusters that are mounted in them.
--
-- Parts of the program, and the files that model them. Paths are from the repository's root.
--   * internal/controller/kubernetes/controller.go, the controller of Kubernetes objects.
--     Controller.Reconcile has `Reconcile` (`reconcile`, `reconcile_found`, `reconcile_live`) and
--     `reconcileDelete`; Controller.Workload has `workloadClusterPhase`, `clusterKubeconfigExists`,
--     `ensureCalicoInstalled`, `reconcileControlPlaneScheduling` and `workloadRESTConfig`;
--     Controller.Status has `patchStatusAnnotation`; Controller.Mount has `ensureMountedWorkspace`,
--     `deleteMountedWorkspace`, `consumerWorkspacePathForCluster` and `kcpClientForWorkspace`;
--     Controller.Taints has `desiredControlPlaneTaints`; Controller.Names has
--     `deriveMountedWorkspaceName` and `firstNonEmpty`.
--   * internal/controller/kubernetes/mount_proxy.go, the proxy under the URL that the controller
--     publishes: Controller.Proxy (`handler`, `join_url_path`).
--   * internal/provisioner, the owner of the consumer workspaces. Provisioner.Env has provisioner.go;
--     Provisioner.Bindings has `ensureWorkspaceBindings` and `desiredBinding` of binding.go;
--     Provisioner.Credentials has credentials.go; Provisioner.Workspaces has workspace.go and
--     `ReconcileWorkspaceBindings`; Provisioner.Listing has `ListWorkspaces`; Provisioner.Kubeconfig
--     has kubeconfig.go up to `externalURLForServer`, and Provisioner.Host the rest of it;
--     Provisioner.Headlamp has headlamp.go. Provisioner.Reads and Provisioner.Stays say what the
--     operations keep in place, over the interface of
--     Cluster.Respects; Provisioner.Settles says what the setup of a workspace leaves in it, over
--     the little that a client learns from the answers to its requests.
--   * cmd/provisioner/main.go, the web server of the provisioner and its periodic work.
--     Web.Forwarded has the choice of the host, Web.Handlers the handlers, Web.Serve the routes of
--     the mux, what `main` makes of the flags and `startHeadlampReconcileLoop`.
--   * internal/controller/mck/mongodb_controller.go, the mock of the MongoDB operator: Mck.
--   * The three processes of cmd together: System. An activity (`Activity`) is what a process runs
--     beside others; Cluster.Calls has requests as values, and what an activity asks for, given any
--     answers (`requests_of`); `Moment` has the requests of any number of activities, each at some
--     point of its run, in any order among each other; System.Interrupted has a method that finds
--     the servers as these requests leave them between its own.
--   * api/v1alpha1/types.go: Cluster.Objects, with the objects of the other APIs.
--
-- How the code is modelled. A function that talks to a server is a state passing function
-- `Exec W A = W → Result A × W` (Exec) over an unknown world W; an error keeps its chain of `%w`
-- wrappings with the format and the arguments. The requests are the fields of the record
-- `Server W` (Cluster.Requests), a parameter: what the servers do is outside the repository. A
-- theorem about what the servers hold afterwards takes `IsLawful` (Cluster.Lawful), the documented
-- behaviour of the API servers with no other writer in between. The deletion of a
-- workspace may take away all that it contains (`contains`). Tests.Memory is a server in memory that
-- has these laws. Texts are lists of bytes (Prelude.Text); net/url, net, SHA-1, JSON, YAML,
-- clientcmd and controllerutil are parameters (Url, Controller.Env, Provisioner.Host, and arguments of
-- Controller.Proxy, Provisioner.Kubeconfig and Provisioner.Headlamp), as are the text of an error and
-- url.QueryEscape (Web.Handlers). A Go map is an association list; the order in which `range` visits
-- it is a parameter (`MapOrder`). Of a kubeconfig that is loaded, the entries have the fields that
-- the program sets. What a method starts with `go` is in its result, as a list of tasks
-- (`run_task` runs one). Exec.Keeps and Exec.Ensures have the rules for what a step keeps and ensures;
-- Controller.Steps and Controller.Frame say what the steps do not touch.
--
-- No definition runs on fuel: every loop is over a list, and stops with it. The stream of documents
-- of a YAML manifest is the list of what the decoder's calls give.
--
-- Not modelled: contexts, cancellation, logging and resource versions; writes of clients outside the
-- program, and, but for System, those of other activities between two requests; the X-Forwarded headers of the proxy; the
-- rendering of the index page; escapes and redirects of paths in the mux, which hands on clean
-- paths; the timer of the periodic loop, which runs over the list of the ticks that it gets before its
-- context ends; the start and the shutdown of servers and managers in the main functions of cmd, which only wire these parts together; generated deep
-- copies; and what is not Go.
pub mod Prelude
pub mod Exec
pub mod Cluster
pub mod Url
pub mod Controller
pub mod Provisioner
pub mod Mck
pub mod Web
pub mod System
mod Tests
