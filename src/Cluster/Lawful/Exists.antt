-- ===== src/Cluster/Lawful/Exists.antt =====
-- Objects that are there, and the creation of those that are missing.
use dbaas.Prelude.{Option, none, some, false, ◌≡◌, arith}
use dbaas.Exec.{Result, ok, err, is_already_exists, Exec, attempt}
use dbaas.Exec.Keeps.{Keeps}
use dbaas.Exec.Ensures.{Ensures}
use dbaas.Cluster.{Server, Key, Kind, Object}
use dbaas.Cluster.Lawful.{IsLawful}
use dbaas.Cluster.Lawful.Frame

module _ {W : Type 0} (S : Server W) (L : IsLawful S) where
  -- The servers hold an object under the key.
  abbrev pub Exists : (k : Kind) → Key → W → Type 0
  Exists k key w = (o : Object k) × (L.find k key w ≡ some o)

  -- The servers hold an object under the key, and a test on it.
  abbrev pub ExistsWith : (k : Kind) → Key → (Object k → Type 0) → W → Type 0
  ExistsWith k key T w = (o : Object k) × (L.find k key w ≡ some o) × T o

  -- What the answer to the creation of a missing object says.
  abbrev pub Created : (k : Kind) → Key → Object k → Result (Unit {0}) → W → Type 0
  Created k key o (ok _) w = L.find k key w ≡ some o
  Created k key o (err e) w = is_already_exists e ≡ false

  create-Created :
      (k : Kind) (key : Key) (o : Object k) (w : W) (r : Result (Unit {0}))
      → L.find k key w ≡ none
      → (S.create k key o w).0 ≡ r
      → Created k key o r (S.create k key o w).1
  create-Created k key o w (ok _) absent e = L.create_ok k key o w e
  create-Created k key o w (err x) absent e = ground (arith, L.create_already_exists k key o w x e)

  pub Ensures-create :
      (k : Kind) (key : Key) (o : Object k)
      → Ensures (λ w. L.find k key w ≡ none) (attempt (S.create k key o)) (Created k key o)
  unfolding attempt
  Ensures-create k key o = record { at = λ w h r e. create-Created k key o w r h (cc) }

  -- A step that keeps what the servers hold under a key keeps that an object is there.
  pub Keeps-ExistsWith :
      {A : Type 0} {m : Exec W A} (k : Kind) (key : Key) (T : Object k → Type 0)
      → ((o : Option (Object k)) → Keeps (Frame.Holds S L k key o) m)
      → Keeps (ExistsWith k key T) m
  Keeps-ExistsWith k key T f = record { at = λ w (x, h, t). (x, (f (some x)).at w h, t) }
