-- ===== src/Cluster/Lawful.antt =====
-- The documented behaviour of the API servers, with no other writer between the program's
-- requests. An object has the fields that the model names: what a server adds to others is not
-- seen, and a configuration stands for the server that it leads to. Of its own object a failed request says no more than is stated here, and no request touches another one.
pub mod Frame
pub mod Reads
pub mod Exists
pub mod Stays
pub mod Vacant
use package.dbaas.Prelude.{◌≡◌, ◌≢◌, ◌⊎◌, Option, none, some, Bool, true, false}
use package.dbaas.Prelude.Text.{Text}
use package.dbaas.Exec.{Error, ok, err, is_not_found, is_already_exists}
use package.dbaas.Cluster.Objects.{
  Kind, Object, metadata, MongoDb, MongoDbStatus, mongodb, kubernetes,
}
use package.dbaas.Cluster.Requests.{management, Key, Server, Endpoint, Apply}

-- Two requests are about different objects.
abbrev pub Apart : Kind → Key → Kind → Key → Type 0
Apart k key k' key' = (k ≢ k') ⊎ (key ≢ key')

-- The object is gone, or its deletion is under way.
pub data IsDeleted (k : Kind) (found : Option (Object k)) : Type 0 where
  absent : found ≡ none → IsDeleted k found
  terminating : (o : Object k) → found ≡ some o → (metadata k o).deleting ≡ true → IsDeleted k found

-- An update of the object leaves it there. One that takes the last finalizer off an object that is
-- being deleted ends it; the program takes a finalizer off no object but those of the kind
-- Kubernetes.
abbrev pub Lasts : (k : Kind) → Object k → Type 0
Lasts k o = (k ≢ kubernetes) ⊎ ((metadata k o).deleting ≡ false)

pub record IsLawful {W : Type 0} (S : Server W) : Type 0 where
  -- Whether the deletion of the workspace under a key takes what is at an endpoint: that of the
  -- workspace itself or of one below it.
  pub contains : Key → Endpoint → Bool
  pub contains_management : (key : Key) → contains key management ≡ false
  -- What the server holds.
  pub find : (k : Kind) → Key → W → Option (Object k)
  pub get_ok :
      (k : Kind) (key : Key) (w : W) (o : Object k)
      → (S.get k key w).0 ≡ ok o
      → find k key w ≡ some o
  pub get_not_found :
      (k : Kind) (key : Key) (w : W) (e : Error)
      → (S.get k key w).0 ≡ err e
      → is_not_found e ≡ true
      → find k key w ≡ none
  pub find-get :
      (k : Kind) (key : Key) (w : W) (k' : Kind) (key' : Key)
      → find k' key' (S.get k key w).1 ≡ find k' key' w
  pub find-list :
      (k : Kind) (e : Endpoint) (ns selector : Text) (w : W) (k' : Kind) (key' : Key)
      → find k' key' (S.list k e ns selector w).1 ≡ find k' key' w
  pub create_ok :
      (k : Kind) (key : Key) (o : Object k) (w : W)
      → (S.create k key o w).0 ≡ ok tt
      → find k key (S.create k key o w).1 ≡ some o
  pub create_already_exists :
      (k : Kind) (key : Key) (o : Object k) (w : W) (e : Error)
      → (S.create k key o w).0 ≡ err e
      → is_already_exists e ≡ true
      → find k key w ≢ none
  -- A creation never replaces an object.
  pub create_existing :
      (k : Kind) (key : Key) (o o' : Object k) (w : W)
      → find k key w ≡ some o'
      → find k key (S.create k key o w).1 ≡ some o'
  -- A creation that fails may have been made nevertheless.
  pub create_any :
      (k : Kind) (key : Key) (o : Object k) (w : W)
      → (find k key (S.create k key o w).1 ≡ find k key w)
        ⊎ (find k key (S.create k key o w).1 ≡ some o)
  pub find-create :
      (k : Kind) (key : Key) (o : Object k) (w : W) (k' : Kind) (key' : Key)
      → Apart k key k' key'
      → find k' key' (S.create k key o w).1 ≡ find k' key' w
  pub update_ok :
      (k : Kind) (key : Key) (o : Object k) (w : W)
      → Lasts k o
      → (S.update k key o w).0 ≡ ok tt
      → find k key (S.update k key o w).1 ≡ some o
  -- An update that fails may have been made nevertheless.
  pub update_any :
      (k : Kind) (key : Key) (o : Object k) (w : W)
      → Lasts k o
      → (find k key (S.update k key o w).1 ≡ find k key w)
        ⊎ (find k key (S.update k key o w).1 ≡ some o)
  pub find-update :
      (k : Kind) (key : Key) (o : Object k) (w : W) (k' : Kind) (key' : Key)
      → Apart k key k' key'
      → find k' key' (S.update k key o w).1 ≡ find k' key' w
  pub delete_ok :
      (k : Kind) (key : Key) (w : W)
      → (S.delete k key w).0 ≡ ok tt
      → IsDeleted k (find k key (S.delete k key w).1)
  pub delete_not_found :
      (k : Kind) (key : Key) (w : W) (e : Error)
      → (S.delete k key w).0 ≡ err e
      → is_not_found e ≡ true
      → find k key (S.delete k key w).1 ≡ none
  -- A workspace goes with its content.
  pub find-delete :
      (k : Kind) (key : Key) (w : W) (k' : Kind) (key' : Key)
      → Apart k key k' key'
      → contains key key'.endpoint ≡ false
      → find k' key' (S.delete k key w).1 ≡ find k' key' w
  pub patch_ok :
      (k : Kind) (key : Key) (o o' : Object k) (w : W)
      → find k key w ≡ some o
      → (S.patch k key o o' w).0 ≡ ok tt
      → find k key (S.patch k key o o' w).1 ≡ some o'
  pub find-patch :
      (k : Kind) (key : Key) (o o' : Object k) (w : W) (k' : Kind) (key' : Key)
      → Apart k key k' key'
      → find k' key' (S.patch k key o o' w).1 ≡ find k' key' w
  -- A patch of the status subresource takes over the status.
  pub patch_mongodb_status_ok :
      (key : Key) (o : MongoDb) (status : MongoDbStatus) (w : W)
      → find mongodb key w ≡ some o
      → (S.patch_status mongodb key o (record o { status = status }) w).0 ≡ ok tt
      → find mongodb key (S.patch_status mongodb key o (record o { status = status }) w).1
        ≡ some (record o { status = status })
  pub find-patch_status :
      (k : Kind) (key : Key) (o o' : Object k) (w : W) (k' : Kind) (key' : Key)
      → Apart k key k' key'
      → find k' key' (S.patch_status k key o o' w).1 ≡ find k' key' w
  pub find-patch_deployment :
      (key : Key) (body : Text) (w : W) (k' : Kind) (key' : Key)
      → find k' key' (S.patch_deployment key body w).1 ≡ find k' key' w
  pub find-rest_mapping :
      (e : Endpoint) (kind : Text) (w : W) (k' : Kind) (key' : Key)
      → find k' key' (S.rest_mapping e kind w).1 ≡ find k' key' w
  pub find-apply :
      (a : Apply) (w : W) (k' : Kind) (key' : Key)
      → a.endpoint ≢ key'.endpoint
      → find k' key' (S.apply a w).1 ≡ find k' key' w
