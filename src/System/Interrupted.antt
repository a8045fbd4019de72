-- ===== src/System/Interrupted.antt =====
-- A method whose requests are interleaved with those of the other activities.
use dbaas.Prelude.{ℕ, suc, List, ◌≡◌, ◌∙◌, true, inl, inr}
use dbaas.Exec.{Error, err, Exec, is_already_exists}
use dbaas.Exec.Keeps.{Keeps}
use dbaas.Cluster.{Server, Key, Endpoint, Kind, Object}
use dbaas.Cluster.Calls.{All, Call, run_calls}
use dbaas.Cluster.Lawful.{IsLawful}
use dbaas.Cluster.Lawful.Stays
use dbaas.Cluster.Lawful.Vacant
use dbaas.Cluster.Respects.{Respects}
use dbaas.Provisioner.Settles.{Settles}
use dbaas.Provisioner.Stays.{Fresh, Test, Kept}
use dbaas.Provisioner.Stays.Prepared.{InSetup-ne-kubernetes, InSetup}
use dbaas.System.{IsHarmless}
use dbaas.System.Kept.{Keeps-Kept, Keeps-Vacant, run_calls_rule}

module _ {W : Type 0} (S : Server W) (others : ℕ → List Call) where
  -- The n-th request finds the world behind `others n`.
  abbrev pub between : {A : Type 0} → Exec W A → Exec (W × ℕ) A
  between m (w, n) = ((m (run_calls S (others n) w)).0, ((m (run_calls S (others n) w)).1, suc n))

  -- The servers as such a method sees them.
  abbrev pub interrupted : Server (W × ℕ)
  interrupted = record {
    new_client = S.new_client;
    get = λ k key. between (S.get k key);
    list = λ k e ns selector. between (S.list k e ns selector);
    create = λ k key x. between (S.create k key x);
    update = λ k key x. between (S.update k key x);
    patch = λ k key x y. between (S.patch k key x y);
    patch_status = λ k key x y. between (S.patch_status k key x y);
    patch_deployment = λ key body. between (S.patch_deployment key body);
    delete = λ k key. between (S.delete k key);
    rest_mapping = λ e kind. between (S.rest_mapping e kind);
    apply = λ a. between (S.apply a);
  }

module _ {W : Type 0} (S : Server W) (L : IsLawful S) (client : Endpoint) (others : ℕ → List Call)
    (harmless : (n : ℕ) → All (IsHarmless L client) (others n)) where
  abbrev pub There : Kind → Key → W × ℕ → Type 0
  There k key (w, n) = Kept S L k key w

  abbrev Open : Kind → Key → W × ℕ → Type 0
  Open k key (w, n) = Vacant.Vacant S L Test k key w

  module _ (k : Kind) (key : Key) (here : InSetup client k key) where
    -- What the others leave there.
    Kept-between : (w : W) (n : ℕ) → There k key (w, n) → There k key (run_calls S (others n) w, n)
    Kept-between w n =
        run_calls_rule S L client _ (Keeps-Kept S L client k key here) (others n) w (harmless n)

    Keeps-between :
        {A : Type 0} (m : Exec W A)
        → Keeps (Kept S L k key) m
        → Keeps (There k key) (between S others m)
    Keeps-between m km = record { at = λ w h. km.at _ (Kept-between w.0 w.1 h) }

    pub respects_others : Respects (interrupted S others) Fresh Test (There k key)
    respects_others = record {
      reads = record {
        keeps_get = λ j i. Keeps-between _ (Stays.Keeps-get S L Test k key j i);
        keeps_list = λ j e ns s. Keeps-between _ (Stays.Keeps-list S L Test k key j e ns s);
      };
      keeps_create = λ j i x fresh. Keeps-between _ (Stays.Keeps-create S L Test k key j i x);
      keeps_update = λ j i x good.
          Keeps-between _ (
            Stays.Keeps-update S L Test k key (InSetup-ne-kubernetes client k key here) j i x good);
      keeps_patch_deployment =
          λ i body. Keeps-between _ (Stays.Keeps-patch_deployment S L Test k key i body);
    }

    -- A place that was vacant and is taken now, was taken by an object that passes the test.
    taken :
        (x : Object k) (w : W) (n : ℕ) (e : Error)
        → Open k key (w, n)
        → (S.create k key x (run_calls S (others n) w)).0 ≡ err e
        → is_already_exists e ≡ true
        → Kept S L k key (S.create k key x (run_calls S (others n) w)).1
    taken x w n e vacant failed exists =
        elim (run_calls_rule S L client _ (Keeps-Vacant S L client k key here) (others n) w
          (harmless n) vacant) [
            | inl absent ↦ absurd (L.create_already_exists k key x _ e failed exists absent)
            | inr there ↦ (Stays.Keeps-create S L Test k key k key x).at _ there
          ]

  pub others_settle : Settles (interrupted S others) There Open (InSetup client)
  others_settle = record {
    respects = respects_others;
    get_ok-There = λ k key (w, n) x here done good.
        let v = run_calls S (others n) w in
        (x, L.find-get k key v k key ∙ L.get_ok k key v x done, good);
    get_not_found-Open = λ k key (w, n) e here done gone.
        let v = run_calls S (others n) w in
        inl (L.find-get k key v k key ∙ L.get_not_found k key v e done gone);
    create_ok-There = λ k key x (w, n) here good done. (x, L.create_ok k key x _ done, good);
    create_already_exists-There = λ k key x (w, n) e here fresh vacant failed exists.
        taken k key here x w n e vacant failed exists;
    update_ok-There = λ k key x (w, n) here good done.
        (x, L.update_ok k key x _ (inl (InSetup-ne-kubernetes client k key here)) done, good);
  }
