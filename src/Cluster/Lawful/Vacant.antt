-- ===== src/Cluster/Lawful/Vacant.antt =====
-- Places that are vacant, or taken by an object that passes a test.
use dbaas.Prelude.{none, some, ◌≡◌, ◌≢◌, ◌⊎◌, ◌∙◌, sym, inl, inr}
use mathlib.Core.Path.{subst}
use dbaas.Exec.{Exec}
use dbaas.Exec.Keeps.{Keeps}
use dbaas.Cluster.{Server, Key, Key-discrete, Kind, Kind-discrete, Object, kubernetes}
use dbaas.Cluster.Lawful.{IsLawful, Apart}
use dbaas.Cluster.Lawful.Frame
use dbaas.Cluster.Lawful.Stays

module _ {W : Type 0} (S : Server W) (L : IsLawful S) (Test : (k : Kind) → Object k → Type 0)
    (k' : Kind) (key' : Key) where
  abbrev pub Vacant : W → Type 0
  Vacant w = (L.find k' key' w ≡ none) ⊎ Stays.Stays S L Test k' key' w

  -- A step that keeps what stays, and does not fill the place with what fails the test.
  Keeps-Vacant :
      {A : Type 0} (m : Exec W A)
      → Keeps (Stays.Stays S L Test k' key') m
      → ((w : W) → L.find k' key' w ≡ none → Vacant (m w).1)
      → Keeps Vacant m
  Keeps-Vacant m stays fills = record {
    at = λ w h. elim h [ inl absent ↦ fills w absent | inr there ↦ inr (stays.at w there) ];
  }

  -- A step that leaves the place alone.
  pub Keeps-untouched :
      {A : Type 0} (m : Exec W A)
      → Keeps (Stays.Stays S L Test k' key') m
      → Keeps (Frame.Holds S L k' key' none) m
      → Keeps Vacant m
  Keeps-untouched m stays holds = Keeps-Vacant m stays (λ w h. inl (holds.at w h))

  filled :
      (x : Object k') (w w' : W)
      → Test k' x
      → (L.find k' key' w' ≡ L.find k' key' w) ⊎ (L.find k' key' w' ≡ some x)
      → L.find k' key' w ≡ none
      → Vacant w'
  filled x w w' good (inl e) absent = inl (e ∙ absent)
  filled x w w' good (inr e) absent = inr (x, e, good)

  -- A step that may write an object to some place.
  module _ (m : (k : Kind) → Key → Object k → W → W)
      (any : (key : Key) (x : Object k') (w : W)
        → (L.find k' key (m k' key x w) ≡ L.find k' key w)
          ⊎ (L.find k' key (m k' key x w) ≡ some x))
      (apart : (k : Kind) (key : Key) (x : Object k) (w : W)
        → Apart k key k' key'
        → L.find k' key' (m k key x w) ≡ L.find k' key' w) where
    self_rule :
        (key : Key) (x : Object k') (w : W)
        → Test k' x
        → L.find k' key' w ≡ none
        → Vacant (m k' key x w)
    self_rule key x w good absent = elim (Key-discrete key key') [
      | no differ ↦ inl (apart k' key x w (inr differ) ∙ absent)
      | yes same ↦
          filled x w (m k' key x w) good
            (subst
              (λ j.
                (L.find k' j (m k' key x w) ≡ L.find k' j w)
                ⊎ (L.find k' j (m k' key x w) ≡ some x))
              same (any key x w))
            absent
    ]

    write_rule :
        (k : Kind) (key : Key) (x : Object k) (w : W)
        → (k ≡ k' → Test k x)
        → L.find k' key' w ≡ none
        → Vacant (m k key x w)
    write_rule k key x w good absent = elim (Kind-discrete k k') [
      | no far ↦ inl (apart k key x w (inl far) ∙ absent)
      | yes same ↦
          subst (λ j. (y : Object j) → Test j y → Vacant (m j key y w)) (sym same)
            (λ y t. self_rule key y w t absent) x (good same)
    ]

  module _ (k : Kind) (key : Key) (x : Object k) where
    pub Keeps-create : (k ≡ k' → Test k x) → Keeps Vacant (S.create k key x)
    Keeps-create good = Keeps-Vacant _ (Stays.Keeps-create S L Test k' key' k key x) (λ w.
        write_rule (λ j i y v. (S.create j i y v).1) (L.create_any k')
          (λ j i y v. L.find-create j i y v k' key') k key x w good)

    pub Keeps-update : k' ≢ kubernetes → Test k x → Keeps Vacant (S.update k key x)
    Keeps-update lasting good =
        Keeps-Vacant _ (Stays.Keeps-update S L Test k' key' lasting k key x good) (λ w.
          write_rule (λ j i y v. (S.update j i y v).1)
            (λ i y v. L.update_any k' i y v (inl lasting))
            (λ j i y v. L.find-update j i y v k' key') k key x w (λ same. good))
