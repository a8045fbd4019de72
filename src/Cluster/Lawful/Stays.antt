-- ===== src/Cluster/Lawful/Stays.antt =====
-- Objects that stay, with a test that every update of the program's passes.
use dbaas.Prelude.{false, some, ◌≡◌, ◌≢◌, ◌⊎◌, ◌∙◌, sym, inl, inr}
use mathlib.Core.Path.{subst}
use dbaas.Prelude.Text.{Text}
use dbaas.Exec.Keeps.{Keeps}
use dbaas.Cluster.{Server, Key, Key-discrete, Kind, Kind-discrete, Object, Endpoint, kubernetes}
use dbaas.Cluster.Respects.{Respects}
use dbaas.Cluster.Lawful.{IsLawful}
use dbaas.Cluster.Lawful.Exists.{ExistsWith, Keeps-ExistsWith}
use dbaas.Cluster.Lawful.Frame

module _ {W : Type 0} (S : Server W) (L : IsLawful S) (Test : (k : Kind) → Object k → Type 0)
    (k' : Kind) (key' : Key) where
  -- The servers hold an object under the key, and it passes the test of its kind.
  abbrev pub Stays : W → Type 0
  Stays = ExistsWith S L k' key' (Test k')

  pub Keeps-get : (k : Kind) (key : Key) → Keeps Stays (S.get k key)
  Keeps-get k key =
      Keeps-ExistsWith S L k' key' (Test k') (λ o. Frame.Keeps-get S L k' key' o k key)

  pub Keeps-list :
      (k : Kind) (e : Endpoint) (ns selector : Text) → Keeps Stays (S.list k e ns selector)
  Keeps-list k e ns selector =
      Keeps-ExistsWith S L k' key' (Test k') (λ o. Frame.Keeps-list S L k' key' o k e ns selector)

  pub Keeps-delete :
      (k : Kind) (key : Key)
      → k ≢ k'
      → L.contains key key'.endpoint ≡ false
      → Keeps Stays (S.delete k key)
  Keeps-delete k key far outside =
      Keeps-ExistsWith S L k' key' (Test k')
        (λ o. Frame.Keeps-delete S L k' key' o k key (inl far) outside)

  pub Keeps-patch_deployment : (key : Key) (body : Text) → Keeps Stays (S.patch_deployment key body)
  Keeps-patch_deployment key body = record {
    at = λ w (o, held, t). (o, L.find-patch_deployment key body w k' key' ∙ held, t);
  }

  create_self : (key : Key) (x : Object k') → Keeps Stays (S.create k' key x)
  create_self key x = elim (Key-discrete key key') [
    | no differ ↦
        Keeps-ExistsWith S L k' key' (Test k')
          (λ o. Frame.Keeps-create S L k' key' o k' key x (inr differ))
    | yes same ↦ record {
      at = λ w (o, held, t). (
        o,
        subst (λ j. L.find k' j (S.create k' key x w).1 ≡ some o) same
            (L.create_existing k' key x o w (subst (λ j. L.find k' j w ≡ some o) (sym same) held)),
        t,
      );
    }
  ]

  pub Keeps-create : (k : Kind) (key : Key) (x : Object k) → Keeps Stays (S.create k key x)
  Keeps-create k key x = elim (Kind-discrete k k') [
    | no far ↦
        Keeps-ExistsWith S L k' key' (Test k')
          (λ o. Frame.Keeps-create S L k' key' o k key x (inl far))
    | yes same ↦
        subst (λ j. (y : Object j) → Keeps Stays (S.create j key y)) (sym same) (create_self key) x
  ]

  update_held :
      (x : Object k') (w w' : W)
      → Test k' x
      → (L.find k' key' w' ≡ L.find k' key' w) ⊎ (L.find k' key' w' ≡ some x)
      → Stays w
      → Stays w'
  update_held x w w' good (inl e) (o, held, t) = (o, e ∙ held, t)
  update_held x w w' good (inr e) (o, held, t) = (x, e, good)

  update_self :
      (lasting : k' ≢ kubernetes) (key : Key) (x : Object k')
      → Test k' x
      → Keeps Stays (S.update k' key x)
  update_self lasting key x good = elim (Key-discrete key key') [
    | no differ ↦
        Keeps-ExistsWith S L k' key' (Test k')
          (λ o. Frame.Keeps-update S L k' key' o k' key x (inr differ))
    | yes same ↦ record {
      at = λ w h.
          update_held x w (S.update k' key x w).1 good
            (subst
              (λ j.
                (L.find k' j (S.update k' key x w).1 ≡ L.find k' j w)
                ⊎ (L.find k' j (S.update k' key x w).1 ≡ some x))
              same (L.update_any k' key x w (inl lasting)))
            h;
    }
  ]

  pub Keeps-update :
      (lasting : k' ≢ kubernetes) (k : Kind) (key : Key) (x : Object k)
      → Test k x
      → Keeps Stays (S.update k key x)
  Keeps-update lasting k key x good = elim (Kind-discrete k k') [
    | no far ↦
        Keeps-ExistsWith S L k' key' (Test k')
          (λ o. Frame.Keeps-update S L k' key' o k key x (inl far))
    | yes same ↦
        subst (λ j. (y : Object j) → Test j y → Keeps Stays (S.update j key y)) (sym same)
          (update_self lasting key) x good
  ]

-- All of it as an interface.
module _ {W : Type 0} (S : Server W) (L : IsLawful S) (Fresh Test : (k : Kind) → Object k → Type 0)
    (k' : Kind) (key' : Key) (lasting : k' ≢ kubernetes) where
  pub Stays-Respects : Respects S Fresh Test (Stays S L Test k' key')
  Stays-Respects = record {
    reads = record {
      keeps_get = Keeps-get S L Test k' key';
      keeps_list = Keeps-list S L Test k' key';
    };
    keeps_create = λ k key x fresh. Keeps-create S L Test k' key' k key x;
    keeps_update = Keeps-update S L Test k' key' lasting;
    keeps_patch_deployment = Keeps-patch_deployment S L Test k' key';
  }
