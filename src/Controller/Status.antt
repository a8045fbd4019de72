-- ===== src/Controller/Status.antt =====
-- internal/controller/kubernetes/controller.go: `patchStatusAnnotation`.
pub mod Laws
use dbaas.Prelude.{Bool, true, false, List, [], ◌∷◌, Option, none, some, if◌then◌else◌}
use dbaas.Prelude.Text.{Text, codes, ◌==◌}
use dbaas.Prelude.Dict
use dbaas.Prelude.Dict.{insert}
use dbaas.Exec.{
  Error, wrap, Result, ok, err, is_not_found, Exec, pure, raise, lift, attempt, or_wrap,
  wrap_result, ◌>>=◌, ◌>>◌,
}
use dbaas.Cluster.{Server, CapiCluster, capi_cluster, Meta}
use dbaas.Controller.Env.{Packages, StatusAnnotation}
use dbaas.Controller.Workload.{management_key}

abbrev pub annotation_status : Text
annotation_status = codes "dbaas.mongodb.com/status"

-- A JSON text is not empty, so a nil map of annotations needs no test of its own.

-- The cluster with its status annotation set.
unfoldable pub annotated : Text → CapiCluster → CapiCluster
annotated desired c = record c {
  meta = record c.meta { annotations = insert annotation_status desired c.meta.annotations };
}

module _ (P : Packages) {W : Type 0} (S : Server W) where
  unfoldable pub patch_cluster : Text → Text → Text → CapiCluster → Exec W (Unit {0})
  patch_cluster namespace name desired c =
      if Dict.read annotation_status c.meta.annotations == desired
      then pure tt
      else or_wrap "patching CAPI Cluster status annotation: %w" []
          (S.patch capi_cluster (management_key namespace name) c (annotated desired c))

  unfoldable pub patch_found :
      Text → Text → StatusAnnotation → Result CapiCluster → Exec W (Unit {0})
  patch_found namespace name status (err e) =
      if is_not_found e
      then pure tt
      else raise (wrap "getting CAPI Cluster %s/%s for annotation: %w" (namespace ∷ name ∷ []) e)
  patch_found namespace name status (ok c) = do
    desired ← or_wrap "marshalling status annotation: %w" [] (lift (P.marshal status))
    patch_cluster namespace name desired c

  -- `patchStatusAnnotation`
  unfoldable pub patch_status_annotation : Text → Text → StatusAnnotation → Exec W (Unit {0})
  patch_status_annotation namespace name status = do
    c ← attempt (S.get capi_cluster (management_key namespace name))
    patch_found namespace name status c
