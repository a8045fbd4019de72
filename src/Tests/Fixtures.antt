-- ===== src/Tests/Fixtures.antt =====
-- Concrete packages, configurations and worlds.
use dbaas.Prelude.{◌≡◌, Bool, true, false, ◌||◌, List, [], ◌∷◌, none, some, if◌then◌else◌, arith}
use dbaas.Prelude.Text.{Text, codes, ◌==◌, eq_refl}
use dbaas.Exec.{ok}
use dbaas.Url.{Url, UrlPackage}
use dbaas.Cluster.{
  Kind, Object, Server, RestConfig, Meta, Kubernetes, Secret, Workspace, kubernetes, capi_cluster,
  secret, config_map, node, Node, workspace, mongodb, name_space, service_account,
  cluster_role_binding,
}
use dbaas.Cluster.Lawful.{IsLawful}
use dbaas.Controller.Env.{Packages, Reconciler}
use dbaas.Controller.Mount.{mounted}
use dbaas.Controller.Reconcile.{kubernetes_finalizer}
use dbaas.Controller.Reconcile.Finalizer.{FinalizerLaws}
use dbaas.Provisioner.Env.{Provisioner, WorkspaceBinding}
use dbaas.Provisioner.Credentials.{workspace_role_binding}
use dbaas.Tests.Memory.{Memory, memory_server, memory_lawful}

-- A URL package that knows nothing but hosts.
abbrev pub host_url : Text → Url
host_url host = record {
  scheme = codes "https";
  user = [];
  host = host;
  path = [];
  raw_query = [];
  fragment = [];
}

abbrev pub urls : UrlPackage
urls = record { parse = λ s. ok (host_url s); print = λ u. u.host }

abbrev pub config : Text → RestConfig
config host = record {
  host = host;
  bearer_token = codes "t";
  cert_data = [];
  key_data = [];
  cert_file = [];
  key_file = [];
  insecure = false;
  ca_data = [];
}

-- Finalizers, as controllerutil handles them.
unfoldable pub has_text : List Text → Text → Bool
has_text [] f = false
has_text (g ∷ gs) f = g == f || has_text gs f

unfoldable pub without : List Text → Text → List Text
without [] f = []
without (g ∷ gs) f = let rest = without gs f in if g == f then rest else g ∷ rest

abbrev pub with_finalizers : Kubernetes → List Text → Kubernetes
with_finalizers o fs = record o { meta = record o.meta { finalizers = fs } }

unfoldable pub add_finalizer : Kubernetes → Text → Kubernetes × Bool
add_finalizer o f =
    if has_text o.meta.finalizers f
    then (o, false)
    else (with_finalizers o (f ∷ o.meta.finalizers), true)

abbrev pub packages : Packages
packages = record {
  sha1 = λ s. s;
  url = urls;
  marshal = λ s. ok s.phase;
  rest_config = λ t. ok (config t);
  is_status_condition_true = λ cs t. true;
  contains_finalizer = λ o f. has_text o.meta.finalizers f;
  add_finalizer = add_finalizer;
  remove_finalizer =
      λ o f. (with_finalizers o (without o.meta.finalizers f), has_text o.meta.finalizers f);
  decode = λ t. [];
}

contains-add : (o : Kubernetes) (f : Text) → has_text (add_finalizer o f).0.meta.finalizers f ≡ true
unfolding has_text add_finalizer
contains-add o f = ground (arith, eq_refl f)

add_same : (o : Kubernetes) (f : Text) → (add_finalizer o f).1 ≡ false → (add_finalizer o f).0 ≡ o
unfolding add_finalizer
add_same o f h = ground arith

deleting-add : (o : Kubernetes) (f : Text) → (add_finalizer o f).0.meta.deleting ≡ o.meta.deleting
unfolding add_finalizer
deleting-add o f = ground arith

pub finalizer_laws : FinalizerLaws packages
finalizer_laws = record {
  contains-add = contains-add;
  add_same = add_same;
  deleting-add = deleting-add;
}

abbrev pub reconciler : Reconciler
reconciler = record {
  kcp_config = config (codes "kcp");
  consumers_workspace = codes "root:c";
  proxy_base_url = codes "http://p/";
}

abbrev pub meta_of : Text → Text → Meta
meta_of namespace name = record {
  name = name;
  namespace = namespace;
  annotations = [];
  finalizers = [];
  deleting = false;
}

-- A cluster that nobody has reconciled yet.
abbrev pub object : Kubernetes
object = record {
  meta = meta_of (codes "id") (codes "k");
  allow_scheduling_on_control_planes = some false;
}

-- The same one on its way out.
abbrev pub deleted_object : Kubernetes
deleted_object = record object {
  meta = record object.meta { finalizers = kubernetes_finalizer ∷ []; deleting = true };
}

abbrev pub tenant_workspace : Workspace
tenant_workspace = record {
  meta = meta_of [] (codes "w");
  type_name = [];
  cluster = codes "id";
  url = [];
  mount = none;
  phase = codes "Ready";
}

abbrev pub kubeconfig : Secret
kubeconfig = record {
  meta = meta_of [] [];
  kind = [];
  value = (codes "value", codes "h") ∷ (codes "token", codes "t") ∷ [];
}

-- A node without taints.
abbrev pub plain_node : Node
plain_node = record { meta = meta_of [] (codes "n"); taints = [] }

-- What is stored under every key.
abbrev pub stored : Memory
stored kubernetes key = some object
stored capi_cluster key = some (record { meta = meta_of [] []; conditions = []; phase = [] })
stored secret key = some kubeconfig
stored config_map key =
    some (record { meta = meta_of [] []; value = (codes "calico.yaml", codes "x") ∷ [] })
stored node key = some plain_node
stored _ key = none

-- A world where the object is about to go, and is mounted.
abbrev pub leaving : Memory
leaving kubernetes key = some deleted_object
leaving workspace key = some (mounted (codes "k") (codes "k") (codes "default"))
leaving _ key = none

-- A consumer workspace with its credentials.
abbrev pub consumers : Memory
consumers secret key = some kubeconfig
consumers workspace key = some tenant_workspace
consumers name_space key = some (record { meta = meta_of [] [] })
consumers service_account key = some (record { meta = meta_of [] [] })
consumers cluster_role_binding key = some workspace_role_binding
consumers _ key = none

-- A database that the mock has not seen yet.
abbrev pub databases : Memory
databases mongodb key = some (record {
  meta = meta_of [] [];
  generation = 1;
  version = codes "8";
  status = record { phase = []; version = []; message = []; observed_generation = 0 };
})
databases _ key = none

abbrev pub listed : (k : Kind) → List (Object k)
listed workspace = tenant_workspace ∷ []
listed node = plain_node ∷ []
listed _ = []

abbrev pub server : Server Memory
server = memory_server listed

abbrev pub lawful : IsLawful server
lawful = memory_lawful listed

abbrev pub binding : WorkspaceBinding
binding = record { name = codes "b"; export_name = codes "e"; permission_claims = [] }

abbrev pub provisioner : Provisioner
provisioner = record {
  admin_config = config (codes "kcp");
  provider_workspace = codes "root:p";
  bindings = binding ∷ [];
  consumers_workspace = codes "root:c";
  in_cluster = false;
  headlamp_namespace = [];
  headlamp_secret = [];
  headlamp_deployment = [];
}
