-- ===== src/Tests/Untouched.antt =====
-- A workspace that a tenant already has.
use dbaas.Prelude.{sym, ◌∙◌, ◌≡◌, refl, some}
use dbaas.Prelude.Text.{codes}
use dbaas.Prelude.Text.{◌==◌}
use dbaas.Prelude.Dict
use dbaas.Prelude.Dict.{lookup}
use dbaas.Exec.{ok}
use dbaas.Controller.Proxy.{kubeconfig_key}
use dbaas.Cluster.{secret, Secret, Key, remote, kubernetes, workspace}
use dbaas.Controller.Mount.{workspace_key}
use dbaas.Controller.Reconcile.{reconcile}
use dbaas.Controller.Reconcile.Untouched.{LeadsElsewhere, reconcile_leaves_workspaces}
use dbaas.Controller.Workload.{management_key}
use dbaas.Tests.Memory.{Memory, found, find_lem}
use dbaas.Tests.Fixtures.{
  kubeconfig, packages, reconciler, server, lawful, listed, object, stored, config,
  tenant_workspace,
}

abbrev taken : Memory
taken workspace key = some tenant_workspace
taken kind key = stored kind key

abbrev taken_key : Key
taken_key = workspace_key (remote (config (codes "kcp/clusters/root:c:w"))) (codes "k")

address_lem : Dict.read (codes "value") kubeconfig.value ≡ codes "h"
unfolding Dict.read lookup ◌==◌
address_lem = refl

address_of : (s : Secret) → some kubeconfig ≡ some s → Dict.read (codes "value") s.value ≡ codes "h"
address_of s e = let known = address_lem in cc

elsewhere : LeadsElsewhere tenant_workspace packages server lawful reconciler taken_key taken
elsewhere namespace name s cfg found made h =
    let address =
      address_of s (sym (find_lem listed secret (kubeconfig_key namespace name) taken) ∙ found) in
    cc

got_lem : (server.get kubernetes (management_key (codes "id") (codes "k")) taken).0 ≡ ok object
unfolding found
got_lem = refl

reconcile_leaves_workspaces_example :
    lawful.find workspace taken_key
      (reconcile packages server reconciler (codes "id") (codes "k") taken).1
    ≡ some tenant_workspace
reconcile_leaves_workspaces_example =
    reconcile_leaves_workspaces tenant_workspace packages server lawful reconciler taken_key
      (codes "id") (codes "k") object taken got_lem refl elsewhere
      (find_lem listed workspace taken_key taken)
