-- ===== src/Controller/Reconcile/Outcome.antt =====
-- The mount and the published status behind `Reconcile`.
use dbaas.Prelude.{Bool, true, [], false, if◌then◌else◌, refl, ◌&&◌, some, ◌≡◌, ◌≢◌, arith}
use dbaas.Prelude.Text.{Text}
use dbaas.Exec.{ok, Exec, pure, ◌>>=◌, ◌>>◌}
use dbaas.Exec.Keeps.{Keeps}
use mathlib.Core.Path.{subst}
use dbaas.Exec.Ensures.{Ensures, Ensures-bind, Ensures-pure, Ensures-any, Ensures-Keeps}
use dbaas.Cluster.{Server, Kubernetes, workspace, capi_cluster}
use dbaas.Cluster.Lawful.{IsLawful}
use dbaas.Controller.Env.{Packages, Reconciler, StatusAnnotation}
use dbaas.Controller.Mount.Laws.{IsMounted, ensure_mounted_workspace-IsMounted}
use dbaas.Controller.Workload.{
  phase_ready, phase_connecting, workload_cluster_phase, cluster_kubeconfig_exists,
}
use dbaas.Controller.Status.{patch_status_annotation}
use dbaas.Controller.Status.Laws.{
  IsPublished, patch_status_annotation-IsPublished, Keeps-patch_status_annotation,
}
use dbaas.Controller.Reconcile.{
  Requeue, remote_name, remote_namespace, mounted_workspace, mount_url, published, prepare_workload,
  mount_if_ready, publish, reconcile_live,
}
use dbaas.Controller.Mount.{workspace_key}

capi_cluster-ne-workspace : capi_cluster ≢ workspace
capi_cluster-ne-workspace = ground arith

published_lem :
    (c k : Bool) (phase url name : Text)
    → published c k phase url name ≡ record {
      phase = if c then if k then phase_ready else phase_connecting else phase;
      ready = c && k;
      url = if c && k then url else [];
      mounted_workspace = name;
    }
unfolding published
published_lem true true phase url name = refl
published_lem true false phase url name = refl
published_lem false k phase url name = refl

module _ (P : Packages) {W : Type 0} (S : Server W) (L : IsLawful S) (R : Reconciler)
    (obj : Kubernetes) (w : W) (cluster_ready kubeconfig_ready : Bool) (phase : Text)
    (phase_read : (workload_cluster_phase P S obj.meta.namespace obj.meta.name w).0
      ≡ ok (cluster_ready, phase))
    (kubeconfig_read : (cluster_kubeconfig_exists P S obj.meta.namespace obj.meta.name
        (workload_cluster_phase P S obj.meta.namespace obj.meta.name w).1).0
      ≡ ok kubeconfig_ready) where
  abbrev after_reads : W
  after_reads =
      (cluster_kubeconfig_exists P S obj.meta.namespace obj.meta.name
        (workload_cluster_phase P S obj.meta.namespace obj.meta.name w).1).1

  abbrev writes : Exec W Requeue
  writes = do
    prepare_workload P S R kubeconfig_ready obj
    mount_if_ready P S R (cluster_ready && kubeconfig_ready) obj
    publish P S R cluster_ready kubeconfig_ready phase obj
    pure (some 15)

  reconcile_live-writes : reconcile_live P S R obj w ≡ writes after_reads
  unfolding reconcile_live ◌>>=◌
  reconcile_live-writes = rw (phase_read, kubeconfig_read)

  abbrev status : StatusAnnotation
  status = record {
    phase =
        if cluster_ready then if kubeconfig_ready then phase_ready else phase_connecting else phase;
    ready = cluster_ready && kubeconfig_ready;
    url =
        if cluster_ready && kubeconfig_ready
        then mount_url R.proxy_base_url obj.meta.namespace obj.meta.name
        else [];
    mounted_workspace = mounted_workspace P S R obj;
  }

  abbrev sent : StatusAnnotation
  sent =
      published cluster_ready kubeconfig_ready phase
        (mount_url R.proxy_base_url obj.meta.namespace obj.meta.name) (mounted_workspace P S R obj)

  sent-status : sent ≡ status
  sent-status = published_lem cluster_ready kubeconfig_ready phase _ _

  writes-IsPublished :
      Ensures
        (λ _. Unit {0})
        writes
        (λ _. IsPublished P S L obj.meta.namespace obj.meta.name status)
  unfolding publish
  writes-IsPublished = Ensures-bind _ _ (Ensures-any _) (λ _. Ensures-bind _ _ (Ensures-any _) (λ _.
      Ensures-bind _ _
        (subst
          (λ s.
            Ensures (λ _. Unit {0})
              (patch_status_annotation P S obj.meta.namespace obj.meta.name sent)
              (λ _. IsPublished P S L obj.meta.namespace obj.meta.name s))
          sent-status
          (patch_status_annotation-IsPublished P S L obj.meta.namespace obj.meta.name sent))
        (λ _. Ensures-pure (some 15) (λ _ h. h))))

  -- Over servers that are lawful (`IsLawful`). Let the reads of the CAPI cluster and of the
  -- kubeconfig succeed. If `Reconcile` succeeds behind its finalizer, then the CAPI cluster is
  -- gone, or its status annotation is the JSON of a status from these reads: it is ready, with the
  -- URL of the mount proxy, exactly if the cluster is ready and its kubeconfig is there; a ready
  -- cluster without a kubeconfig is connecting; one that is not ready has the phase that was read.
  pub reconcile_live-IsPublished :
      (r : Requeue)
      → (reconcile_live P S R obj w).0 ≡ ok r
      → IsPublished P S L obj.meta.namespace obj.meta.name status (reconcile_live P S R obj w).1
  reconcile_live-IsPublished r done =
      rw reconcile_live-writes
        (writes-IsPublished.at after_reads tt r (rw reconcile_live-writes at done))

  abbrev Mounted : W → Type 0
  Mounted =
      IsMounted P S L R obj.meta.namespace (mounted_workspace P S R obj) (remote_name obj)
        (remote_namespace obj)

  Keeps-Mounted : Keeps Mounted (publish P S R cluster_ready kubeconfig_ready phase obj)
  unfolding publish
  Keeps-Mounted = record {
    at = λ w' (client, tenant, (ws, held, mounts)). (
      client,
      tenant,
      (
        ws,
        (Keeps-patch_status_annotation P S L obj.meta.namespace obj.meta.name sent workspace
              (workspace_key client (mounted_workspace P S R obj)) (some ws)
              capi_cluster-ne-workspace).at
            w' held,
        mounts,
      ),
    );
  }

  mount-Mounted :
      cluster_ready && kubeconfig_ready ≡ true
      → Ensures
          (λ _. Unit {0})
          (mount_if_ready P S R (cluster_ready && kubeconfig_ready) obj)
          (λ _. Mounted)
  unfolding mount_if_ready
  mount-Mounted ready = rw ready (
      ensure_mounted_workspace-IsMounted P S L R obj.meta.namespace (mounted_workspace P S R obj)
        (remote_name obj) (remote_namespace obj))

  writes-Mounted :
      cluster_ready && kubeconfig_ready ≡ true → Ensures (λ _. Unit {0}) writes (λ _. Mounted)
  writes-Mounted ready = Ensures-bind _ _ (Ensures-any _) (λ _.
      Ensures-bind _ _ (mount-Mounted ready) (λ _.
        Ensures-bind _ _ (Ensures-Keeps _ Keeps-Mounted) (λ _. Ensures-pure (some 15) (λ _ h. h))))

  -- Over servers that are lawful (`IsLawful`). Let the reads of the CAPI cluster and of the
  -- kubeconfig succeed, and both say that the cluster is ready. If `Reconcile` succeeds behind its
  -- finalizer, then a workspace of the derived name is there whose mount names the object, in the
  -- workspace of a tenant: one that was listed in the consumers' workspace and whose logical
  -- cluster is the object's namespace.
  pub reconcile_live-IsMounted :
      (r : Requeue)
      → cluster_ready && kubeconfig_ready ≡ true
      → (reconcile_live P S R obj w).0 ≡ ok r
      → Mounted (reconcile_live P S R obj w).1
  reconcile_live-IsMounted r ready done =
      rw reconcile_live-writes
        ((writes-Mounted ready).at after_reads tt r (rw reconcile_live-writes at done))
