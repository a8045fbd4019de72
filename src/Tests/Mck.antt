-- ===== src/Tests/Mck.antt =====
-- The mock of the MongoDB operator.
use dbaas.Prelude.{◌≡◌, refl, none}
use dbaas.Prelude.Text.{codes}
use dbaas.Exec.{ok, ◌>>=◌}
use dbaas.Cluster.{Key, management}
use dbaas.Mck.{mongodb_found, reconcile_mongodb}
use dbaas.Mck.Laws.{IsRunning, reconcile_mongodb-IsRunning}
use dbaas.Tests.Memory.{found, write_present}
use dbaas.Tests.Fixtures.{databases, server, lawful}

abbrev database_key : Key
database_key = record { endpoint = management; namespace = codes "n"; name = codes "d" }

database_lem : (reconcile_mongodb (codes "Running") server database_key databases).0 ≡ ok none
unfolding reconcile_mongodb mongodb_found ◌>>=◌ found write_present
database_lem = refl

reconcile_mongodb-IsRunning_example :
    IsRunning
      (codes "Running")
      server
      lawful
      database_key
      (reconcile_mongodb (codes "Running") server database_key databases).1
reconcile_mongodb-IsRunning_example =
    reconcile_mongodb-IsRunning (codes "Running") server lawful database_key databases none
      database_lem
