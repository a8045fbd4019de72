-- ===== src/Mck.antt =====
-- internal/controller/mck/mongodb_controller.go: the mock of the MongoDB operator.
pub mod Laws
use dbaas.Prelude.{ℕ, Bool, List, [], Option, none, if◌then◌else◌}
use dbaas.Prelude.Text.{Text, codes}
use dbaas.Exec.{
  Error, Result, ok, err, is_not_found, Exec, pure, raise, attempt, or_wrap, ◌>>=◌, ◌>>◌,
}
use dbaas.Cluster.{Server, Key, MongoDb, MongoDbStatus, mongodb, Meta}

-- The argument is `status.PhaseRunning` of the operator.
module _ (phase_running : Text) where
  -- The status that is written.
  abbrev pub running : MongoDb → MongoDbStatus
  running o = record {
    phase = phase_running;
    version = o.version;
    message = codes "Mock MCK MongoDB is running";
    observed_generation = o.generation;
  }

  module _ {W : Type 0} (S : Server W) (key : Key) where
    -- What follows the read of the object; nothing is requeued.
    unfoldable pub mongodb_found : Result MongoDb → Exec W (Option ℕ)
    mongodb_found (err e) = if is_not_found e then pure none else raise e
    mongodb_found (ok o) = do
      or_wrap "patching MongoDB status: %w" []
          (S.patch_status mongodb key o (record o { status = running o }))
      pure none

    -- `MongoDBReconciler.Reconcile`
    unfoldable pub reconcile_mongodb : Exec W (Option ℕ)
    reconcile_mongodb = do o ← attempt (S.get mongodb key); mongodb_found o
