-- ===== src/Controller/Status/Laws.antt =====
-- The CAPI cluster behind `patchStatusAnnotation`, and the objects of other kinds.
use dbaas.Prelude.{Option, none, some, ◌≡◌, ◌≢◌, ◌⊎◌, inl, inr}
use dbaas.Prelude.Text.{Text, ◌==◌, eq→≡}
use dbaas.Prelude.Dict
use dbaas.Prelude.Dict.{read-insert}
use dbaas.Exec.{Result, ok, err, is_not_found}
use dbaas.Exec.Keeps.{Keeps, keeps_rules, Keeps-bind, Keeps-attempt}
use dbaas.Exec.Ensures.{
  Ensures, Ensures-bind, Ensures-if, Ensures-pure, Ensures-or_wrap, Ensures-raise, Ensures-lift,
}
use dbaas.Cluster.{Server, Key, Kind, Object, capi_cluster, CapiCluster}
use dbaas.Cluster.Lawful.{IsLawful}
use dbaas.Cluster.Lawful.Frame
use dbaas.Cluster.Lawful.Reads.{Agrees, Ensures-get}
use dbaas.Controller.Env.{Packages, StatusAnnotation}
use dbaas.Controller.Workload.{management_key}
use dbaas.Controller.Status.{
  annotation_status, annotated, patch_cluster, patch_found, patch_status_annotation,
}

module _ (P : Packages) {W : Type 0} (S : Server W) (L : IsLawful S) (namespace name : Text)
    (status : StatusAnnotation) where
  -- The CAPI cluster is gone, or its annotation is the JSON of the status.
  abbrev pub IsPublished : W → Type 0
  IsPublished w =
      (L.find capi_cluster (management_key namespace name) w ≡ none)
      ⊎ ((c : CapiCluster) × (text : Text) × (L.find capi_cluster (management_key namespace name) w
            ≡ some c)
          × (P.marshal status ≡ ok text)
          × (Dict.read annotation_status c.meta.annotations ≡ text))

  abbrev Ready : CapiCluster → Text → W → Type 0
  Ready c text w =
      (P.marshal status ≡ ok text)
      × (L.find capi_cluster (management_key namespace name) w ≡ some c)

  patch-IsPublished :
      (c : CapiCluster) (text : Text)
      → Ensures
          (Ready c text)
          (S.patch capi_cluster (management_key namespace name) c (annotated text c))
          (λ _. IsPublished)
  unfolding annotated
  patch-IsPublished c text = record {
    at = λ w h a e. inr (
      annotated text c,
      text,
      L.patch_ok capi_cluster (management_key namespace name) c (annotated text c) w h.1 e,
      h.0,
      read-insert annotation_status text c.meta.annotations,
    );
  }

  patch_cluster-IsPublished :
      (c : CapiCluster) (text : Text)
      → Ensures (Ready c text) (patch_cluster P S namespace name text c) (λ _. IsPublished)
  unfolding patch_cluster
  patch_cluster-IsPublished c text =
      Ensures-if (Dict.read annotation_status c.meta.annotations == text) _ _
        (λ same. Ensures-pure tt (λ w h. inr (c, text, h.1, h.0, eq→≡ _ _ same)))
        (λ _. Ensures-or_wrap _ _ _ (patch-IsPublished c text))

  patch_found-IsPublished :
      (r : Result CapiCluster)
      → Ensures
          (Agrees S L capi_cluster (management_key namespace name) r)
          (patch_found P S namespace name status r)
          (λ _. IsPublished)
  unfolding patch_found
  patch_found-IsPublished (err e) =
      Ensures-if (is_not_found e) _ _ (λ n. Ensures-pure tt (λ w h. inl (h n)))
        (λ _. Ensures-raise _)
  patch_found-IsPublished (ok c) =
      Ensures-bind _ _ (Ensures-or_wrap _ _ _ (Ensures-lift (P.marshal status)))
        (patch_cluster-IsPublished c)

  pub patch_status_annotation-IsPublished :
      {Q : W → Type 0}
      → Ensures Q (patch_status_annotation P S namespace name status) (λ _. IsPublished)
  unfolding patch_status_annotation
  patch_status_annotation-IsPublished {Q} =
      Ensures-bind _ _ (Ensures-get S L capi_cluster (management_key namespace name))
        patch_found-IsPublished

  module _ (k : Kind) (key : Key) (o : Option (Object k)) (far : capi_cluster ≢ k) where
    Keeps-patch_found :
        (r : Result CapiCluster)
        → Keeps (Frame.Holds S L k key o) (patch_found P S namespace name status r)
    unfolding patch_found patch_cluster
    Keeps-patch_found (err e) = search keeps_rules
    Keeps-patch_found (ok c) = search (
      keeps_rules,
      λ (text : Text).
          Frame.Keeps-patch S L k key o capi_cluster (management_key namespace name) c
            (annotated text c) (inl far),
    )

    pub Keeps-patch_status_annotation :
        Keeps (Frame.Holds S L k key o) (patch_status_annotation P S namespace name status)
    unfolding patch_status_annotation
    Keeps-patch_status_annotation =
        Keeps-bind _ _
          (Keeps-attempt _
            (Frame.Keeps-get S L k key o capi_cluster (management_key namespace name)))
          Keeps-patch_found
