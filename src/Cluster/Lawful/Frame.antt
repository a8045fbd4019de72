-- ===== src/Cluster/Lawful/Frame.antt =====
-- One object of the servers is held as it is by every request that is about another one.
use dbaas.Prelude.{false, Option, ◌≡◌, ◌≢◌, ◌∙◌}
use dbaas.Prelude.Text.{Text}
use dbaas.Exec.Keeps.{Keeps, keeps_rules}
use dbaas.Cluster.{Server, Key, Endpoint, Apply, Kind, Object}
use dbaas.Cluster.Respects.{Reads}
use dbaas.Cluster.Lawful.{IsLawful, Apart}

module _ {W : Type 0} (S : Server W) (L : IsLawful S) (k' : Kind) (key' : Key)
    (o : Option (Object k')) where
  -- The servers hold `o` under the key.
  abbrev pub Holds : W → Type 0
  Holds w = L.find k' key' w ≡ o

  pub Keeps-get : (k : Kind) (key : Key) → Keeps Holds (S.get k key)
  Keeps-get k key = record { at = λ w h. L.find-get k key w k' key' ∙ h }

  pub Keeps-list :
      (k : Kind) (e : Endpoint) (ns selector : Text) → Keeps Holds (S.list k e ns selector)
  Keeps-list k e ns selector = record { at = λ w h. L.find-list k e ns selector w k' key' ∙ h }

  pub Keeps-mapping : (e : Endpoint) (kind : Text) → Keeps Holds (S.rest_mapping e kind)
  Keeps-mapping e kind = record { at = λ w h. L.find-rest_mapping e kind w k' key' ∙ h }

  pub Keeps-apply : (a : Apply) → a.endpoint ≢ key'.endpoint → Keeps Holds (S.apply a)
  Keeps-apply a far = record { at = λ w h. L.find-apply a w k' key' far ∙ h }

  module _ (k : Kind) (key : Key) where
    pub Keeps-create : (x : Object k) → Apart k key k' key' → Keeps Holds (S.create k key x)
    Keeps-create x far = record { at = λ w h. L.find-create k key x w k' key' far ∙ h }

    pub Keeps-update : (x : Object k) → Apart k key k' key' → Keeps Holds (S.update k key x)
    Keeps-update x far = record { at = λ w h. L.find-update k key x w k' key' far ∙ h }

    pub Keeps-patch : (x y : Object k) → Apart k key k' key' → Keeps Holds (S.patch k key x y)
    Keeps-patch x y far = record { at = λ w h. L.find-patch k key x y w k' key' far ∙ h }

    pub Keeps-patch_status :
        (x y : Object k) → Apart k key k' key' → Keeps Holds (S.patch_status k key x y)
    Keeps-patch_status x y far = record {
      at = λ w h. L.find-patch_status k key x y w k' key' far ∙ h;
    }

    pub Keeps-delete :
        Apart k key k' key' → L.contains key key'.endpoint ≡ false → Keeps Holds (S.delete k key)
    Keeps-delete far outside = record { at = λ w h. L.find-delete k key w k' key' far outside ∙ h }

module _ {W : Type 0} (S : Server W) (L : IsLawful S) (k' : Kind) (key' : Key)
    (o : Option (Object k')) where
  pub frame_reads : Reads S (Holds S L k' key' o)
  frame_reads = record {
    keeps_get = Keeps-get S L k' key' o;
    keeps_list = Keeps-list S L k' key' o;
  }

-- The requests that name no object to write.
pub ruleset read_rules = (keeps_rules, Keeps-get, Keeps-list, Keeps-mapping)
