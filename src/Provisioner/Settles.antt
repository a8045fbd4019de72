-- ===== src/Provisioner/Settles.antt =====
-- What a client learns from the answers to its requests, as an interface: the setup of a workspace
-- needs no more of the servers than this.
pub mod Steps
pub mod Setup
pub mod Lawful
use dbaas.Prelude.{true, List, [], ◌∷◌, ◌≡◌}
use dbaas.Prelude.Text.{Text}
use Prim.Native.String.{String}
use dbaas.Exec.{Error, Result, ok, err, is_not_found, is_already_exists, Exec, attempt}
use dbaas.Exec.Keeps.{Keeps}
use dbaas.Exec.Ensures.{Ensures}
use dbaas.Cluster.{Server, Key, Kind, Object}
use dbaas.Cluster.Respects.{Respects}
use dbaas.Provisioner.Stays.{Fresh, Test}

-- `There` says of a world that an object is in its place and passes the test of its kind, `Open`
-- that nothing stands there that fails it; both are of use for the places of `In`.
pub record Settles {W : Type 0} (S : Server W) (There Open : Kind → Key → W → Type 0)
    (In : Kind → Key → Type 0) : Type 0 where
  pub respects : (k : Kind) (key : Key) → In k key → Respects S Fresh Test (There k key)
  pub get_ok-There :
      (k : Kind) (key : Key) (w : W) (x : Object k)
      → In k key
      → (S.get k key w).0 ≡ ok x
      → Test k x
      → There k key (S.get k key w).1
  pub get_not_found-Open :
      (k : Kind) (key : Key) (w : W) (e : Error)
      → In k key
      → (S.get k key w).0 ≡ err e
      → is_not_found e ≡ true
      → Open k key (S.get k key w).1
  pub create_ok-There :
      (k : Kind) (key : Key) (x : Object k) (w : W)
      → In k key
      → Test k x
      → (S.create k key x w).0 ≡ ok tt
      → There k key (S.create k key x w).1
  -- Another client was faster.
  pub create_already_exists-There :
      (k : Kind) (key : Key) (x : Object k) (w : W) (e : Error)
      → In k key
      → Fresh k x
      → Open k key w
      → (S.create k key x w).0 ≡ err e
      → is_already_exists e ≡ true
      → There k key (S.create k key x w).1
  pub update_ok-There :
      (k : Kind) (key : Key) (x : Object k) (w : W)
      → In k key
      → Test k x
      → (S.update k key x w).0 ≡ ok tt
      → There k key (S.update k key x w).1

module _ {W : Type 0} (S : Server W) {There Open : Kind → Key → W → Type 0}
    {In : Kind → Key → Type 0} (Q : Settles S There Open In) (k : Kind) (key : Key)
    (here : In k key) where
  -- What the answer to a read says.
  abbrev pub Read : Result (Object k) → W → Type 0
  Read (ok x) w = Test k x → There k key w
  Read (err e) w = is_not_found e ≡ true → Open k key w

  get-Read : (w : W) (r : Result (Object k)) → (S.get k key w).0 ≡ r → Read r (S.get k key w).1
  get-Read w (ok x) e = Q.get_ok-There k key w x here e
  get-Read w (err x) e = Q.get_not_found-Open k key w x here e

  pub Ensures-get : {P : W → Type 0} → Ensures P (attempt (S.get k key)) Read
  unfolding attempt
  Ensures-get = record { at = λ w h r e. get-Read w r (cc) }

  -- What the answer to a creation says.
  abbrev pub Created : Result (Unit {0}) → W → Type 0
  Created (ok _) w = There k key w
  Created (err e) w = is_already_exists e ≡ true → There k key w

  create-Created :
      (x : Object k) (w : W) (r : Result (Unit {0}))
      → Test k x
      → Fresh k x
      → Open k key w
      → (S.create k key x w).0 ≡ r
      → Created r (S.create k key x w).1
  create-Created x w (ok _) good fresh h e = Q.create_ok-There k key x w here good e
  create-Created x w (err y) good fresh h e =
      Q.create_already_exists-There k key x w y here fresh h e

  pub Ensures-create :
      (x : Object k)
      → Test k x
      → Fresh k x
      → Ensures (Open k key) (attempt (S.create k key x)) Created
  unfolding attempt
  Ensures-create x good fresh = record { at = λ w h r e. create-Created x w r good fresh h (cc) }
