-- ===== src/Cluster/Lawful/Reads.antt =====
-- What a read says of the servers.
use dbaas.Prelude.{none, some, true, ◌≡◌, ◌∙◌}
use dbaas.Exec.{Result, ok, err, is_not_found, attempt}
use dbaas.Exec.Ensures.{Ensures}
use dbaas.Cluster.{Server, Key, Kind, Object}
use dbaas.Cluster.Lawful.{IsLawful}

module _ {W : Type 0} (S : Server W) (L : IsLawful S) where
  -- The answer to a read agrees with what the servers hold.
  abbrev pub Agrees : (k : Kind) → Key → Result (Object k) → W → Type 0
  Agrees k key (ok o) w = L.find k key w ≡ some o
  Agrees k key (err e) w = is_not_found e ≡ true → L.find k key w ≡ none

  get-Agrees :
      (k : Kind) (key : Key) (w : W) (r : Result (Object k))
      → (S.get k key w).0 ≡ r
      → Agrees k key r (S.get k key w).1
  get-Agrees k key w (ok o) e = L.find-get k key w k key ∙ L.get_ok k key w o e
  get-Agrees k key w (err x) e = λ n. L.find-get k key w k key ∙ L.get_not_found k key w x e n

  pub Ensures-get :
      {P : W → Type 0} (k : Kind) (key : Key)
      → Ensures P (attempt (S.get k key)) (λ r w. Agrees k key r w)
  unfolding attempt
  Ensures-get k key = record { at = λ w h r e. get-Agrees k key w r (cc) }
