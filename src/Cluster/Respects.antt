-- ===== src/Cluster/Respects.antt =====
-- What the requests of a client keep: the interface between the steps of the program and a
-- predicate on the world.
use package.dbaas.Prelude.Text.{Text}
use package.dbaas.Exec.Keeps.{Keeps}
use package.dbaas.Cluster.Objects.{Kind, Object}
use package.dbaas.Cluster.Requests.{Server, Key, Endpoint}

-- Reads keep it.
pub record Reads {W : Type 0} (S : Server W) (K : W → Type 0) : Type 0 where
  pub keeps_get : (k : Kind) (key : Key) → Keeps K (S.get k key)
  pub keeps_list : (k : Kind) (e : Endpoint) (ns selector : Text) → Keeps K (S.list k e ns selector)

-- So do creations of objects and updates to objects that pass the test for these, and patches of
-- deployments.
pub record Respects {W : Type 0} (S : Server W) (Fresh Test : (k : Kind) → Object k → Type 0)
    (K : W → Type 0) : Type 0 where
  pub reads : Reads S K
  pub keeps_create : (k : Kind) (key : Key) (x : Object k) → Fresh k x → Keeps K (S.create k key x)
  pub keeps_update : (k : Kind) (key : Key) (x : Object k) → Test k x → Keeps K (S.update k key x)
  pub keeps_patch_deployment : (key : Key) (body : Text) → Keeps K (S.patch_deployment key body)
