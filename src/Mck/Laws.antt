-- ===== src/Mck/Laws.antt =====
-- What the mock controller leaves in the status.
use dbaas.Prelude.{ℕ, Option, none, some, ◌≡◌, ◌⊎◌, inl, inr, refl}
use dbaas.Prelude.Text.{Text, codes}
use dbaas.Exec.{Result, ok, err, is_not_found}
use dbaas.Exec.Ensures.{
  Ensures, Ensures-bind, Ensures-if, Ensures-pure, Ensures-raise, Ensures-or_wrap,
}
use dbaas.Cluster.{Server, Key, MongoDb, mongodb}
use dbaas.Cluster.Lawful.{IsLawful}
use dbaas.Cluster.Lawful.Reads.{Agrees, Ensures-get}
use dbaas.Mck.{running, mongodb_found, reconcile_mongodb}

module _ (phase_running : Text) {W : Type 0} (S : Server W) (L : IsLawful S) (key : Key) where
  -- The resource is gone, or its status is the one of a running database of its version.
  abbrev pub IsRunning : W → Type 0
  IsRunning w =
      (L.find mongodb key w ≡ none)
      ⊎ ((o : MongoDb) × (L.find mongodb key w ≡ some o)
          × (o.status.phase ≡ phase_running)
          × (o.status.version ≡ o.version)
          × (o.status.message ≡ codes "Mock MCK MongoDB is running")
          × (o.status.observed_generation ≡ o.generation))

  mongodb_found-IsRunning :
      (r : Result MongoDb)
      → Ensures (Agrees S L mongodb key r) (mongodb_found phase_running S key r) (λ _. IsRunning)
  unfolding mongodb_found
  mongodb_found-IsRunning (err e) =
      Ensures-if (is_not_found e) _ _ (λ n. Ensures-pure none (λ w h. inl (h n)))
        (λ _. Ensures-raise _)
  mongodb_found-IsRunning (ok o) =
      Ensures-bind _ _
        (Ensures-or_wrap _ _ _ (record {
          at = λ w h a e. inr (
            record o { status = running phase_running o },
            L.patch_mongodb_status_ok key o (running phase_running o) w h e,
            refl,
            refl,
            refl,
            refl,
          );
        }))
        (λ _. Ensures-pure none (λ w h. h))

  reconcile_mongodb-step :
      Ensures (λ _. Unit {0}) (reconcile_mongodb phase_running S key) (λ _. IsRunning)
  unfolding reconcile_mongodb
  reconcile_mongodb-step = Ensures-bind _ _ (Ensures-get S L mongodb key) mongodb_found-IsRunning

  -- Over servers that are lawful (`IsLawful`). If the mock's `Reconcile` succeeds, the resource is
  -- gone, or its status says that it runs, in the version of its spec and for its current
  -- generation.
  pub reconcile_mongodb-IsRunning :
      (w : W) (r : Option ℕ)
      → (reconcile_mongodb phase_running S key w).0 ≡ ok r
      → IsRunning (reconcile_mongodb phase_running S key w).1
  reconcile_mongodb-IsRunning w r done = reconcile_mongodb-step.at w tt r done
