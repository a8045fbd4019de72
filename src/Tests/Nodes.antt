-- ===== src/Tests/Nodes.antt =====
-- The taints of the nodes of a workload cluster.
use dbaas.Prelude.{◌≡◌, ◌∙◌, refl, some, [], ◌∷◌}
use dbaas.Prelude.Text.{codes, ◌==◌}
use dbaas.Prelude.Dict
use dbaas.Prelude.Dict.{lookup}
use dbaas.Exec.{Result, ok, ◌>>=◌}
use dbaas.Cluster.{node, remote}
use dbaas.Controller.Taints.{desired_control_plane_taints, scan, visit, is_control_plane_taint}
use dbaas.Controller.Workload.{
  workload_rest_config, reconcile_control_plane_scheduling, update_nodes, update_node,
  allows_scheduling,
}
use dbaas.Controller.Workload.Nodes.{
  AllHeld, AllScheduled, node_key, reconcile_control_plane_scheduling-AllScheduled,
}
use dbaas.Tests.Memory.{Memory, found, write_present, find_lem}
use dbaas.Tests.Fixtures.{packages, server, lawful, listed, object, stored, config, plain_node}

abbrev run : Memory → Result (Unit {0}) × Memory
run = reconcile_control_plane_scheduling packages server object

config_lem :
    (workload_rest_config packages server object.meta.namespace object.meta.name stored).0
    ≡ ok (config (codes "h"))
unfolding workload_rest_config ◌>>=◌ found Dict.read lookup ◌==◌
config_lem = refl

abbrev after_read : Memory
after_read = (workload_rest_config packages server object.meta.namespace object.meta.name stored).1

listed_lem :
    (server.list node
      (remote (config (codes "h")))
      []
      (codes "node-role.kubernetes.io/control-plane")
      after_read).0
    ≡ ok (plain_node ∷ [])
listed_lem = refl

after_read_lem : after_read node (node_key (config (codes "h")) plain_node) ≡ some plain_node
unfolding workload_rest_config ◌>>=◌ found Dict.read lookup ◌==◌
after_read_lem = refl

held_lem : AllHeld packages server lawful (config (codes "h")) (plain_node ∷ []) after_read
held_lem = (find_lem listed node _ after_read ∙ after_read_lem, tt)

run_lem : (run stored).0 ≡ ok tt
unfolding reconcile_control_plane_scheduling workload_rest_config ◌>>=◌ found Dict.read lookup ◌==◌
    update_nodes update_node desired_control_plane_taints scan visit is_control_plane_taint
    allows_scheduling write_present
run_lem = refl

reconcile_control_plane_scheduling-AllScheduled_example :
    AllScheduled packages server lawful
      (config (codes "h"))
      (allows_scheduling packages server object)
      (plain_node ∷ [])
      (run stored).1
reconcile_control_plane_scheduling-AllScheduled_example =
    reconcile_control_plane_scheduling-AllScheduled packages server lawful (config (codes "h"))
      object stored (plain_node ∷ []) config_lem refl listed_lem held_lem run_lem
