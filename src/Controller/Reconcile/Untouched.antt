-- ===== src/Controller/Reconcile/Untouched.antt =====
-- The workspaces of the tenants under `Reconcile`.
use dbaas.Prelude.{
  Option, sym, Bool, true, false, some, if◌then◌else◌, ◌≡◌, ◌≢◌, inl, refl, ◌∙◌, ap, arith,
}
use dbaas.Prelude.Text.{Text}
use dbaas.Exec.{ok, ◌>>=◌, Exec}
use dbaas.Exec.Keeps.{Keeps, Keeps-bind}
use dbaas.Controller.Proxy.{kubeconfig_key}
use dbaas.Prelude.Text.{codes}
use dbaas.Prelude.Dict
use dbaas.Cluster.{
  management, secret, Secret, Server, Key, Kind, Object, remote, RestConfig, kubernetes, Kubernetes,
  node, workspace, Workspace, capi_cluster,
}
use dbaas.Cluster.Lawful.{IsLawful}
use dbaas.Cluster.Lawful.Exists.{Keeps-ExistsWith}
use dbaas.Cluster.Lawful.Frame
use dbaas.Cluster.Lawful.Stays
use dbaas.Controller.Env.{Packages, Reconciler}
use dbaas.Controller.Reconcile.{
  ensure_finalizer, reconcile_live, reconcile_delete, reconcile_found, reconcile,
}
use dbaas.Controller.Steps.Whole
use dbaas.Controller.Steps.{Requests, Keeps-reconcile_live}
use dbaas.Controller.Workload.{management_key, apply_request}

remote_not_management : (cfg : RestConfig) → remote cfg ≢ management
remote_not_management cfg e = cc

module _ (v : Workspace) where
  -- A workspace is this one.
  abbrev Test : (k : Kind) → Object k → Type 0
  Test workspace o = o ≡ v
  Test _ o = Unit

  module _ (P : Packages) {W : Type 0} (S : Server W) (L : IsLawful S) (R : Reconciler)
      (key' : Key) where
    -- No kubeconfig of a workload cluster that the servers hold leads to the endpoint.
    abbrev pub LeadsElsewhere : W → Type 0
    LeadsElsewhere w =
        (namespace name : Text) (s : Secret) (cfg : RestConfig)
        → L.find secret (kubeconfig_key namespace name) w ≡ some s
        → P.rest_config (Dict.read (codes "value") s.value) ≡ ok cfg
        → remote cfg ≢ key'.endpoint

    abbrev Held : W → Type 0
    Held w = Stays.Stays S L Test workspace key' w × LeadsElsewhere w

    -- A step keeps it that leaves the secrets alone.
    Keeps-Held :
        {A : Type 0} (m : Exec W A)
        → Keeps (Stays.Stays S L Test workspace key') m
        → ((namespace name : Text) (o : Option Secret)
            → Keeps (Frame.Holds S L secret (kubeconfig_key namespace name) o) m)
        → Keeps Held m
    Keeps-Held m stays holds = record {
      at = λ w (held, elsewhere). (
        stays.at w held,
        λ namespace name s cfg found. elsewhere namespace name s cfg (
            sym ((holds namespace name (L.find secret (kubeconfig_key namespace name) w)).at w refl)
            ∙ found),
      );
    }

    workspace_requests : Requests P S Held (λ cfg. remote cfg ≢ key'.endpoint)
    unfolding apply_request
    workspace_requests = record {
      get_rule = λ k key.
          Keeps-Held _ (Stays.Keeps-get S L Test workspace key' k key)
            (λ ns n o. Frame.Keeps-get S L secret (kubeconfig_key ns n) o k key);
      list_rule = λ k e ns' s.
          Keeps-Held _ (Stays.Keeps-list S L Test workspace key' k e ns' s)
            (λ ns n o. Frame.Keeps-list S L secret (kubeconfig_key ns n) o k e ns' s);
      mapping_rule = λ e kind.
          Keeps-Held _
            (Keeps-ExistsWith S L workspace key' (Test workspace)
              (λ o. Frame.Keeps-mapping S L workspace key' o e kind))
            (λ ns n o. Frame.Keeps-mapping S L secret (kubeconfig_key ns n) o e kind);
      apply_rule = λ cfg d m body apart.
          Keeps-Held _
            (Keeps-ExistsWith S L workspace key' (Test workspace)
              (λ o. Frame.Keeps-apply S L workspace key' o (apply_request P S cfg d m body) apart))
            (λ ns n o.
              Frame.Keeps-apply S L secret (kubeconfig_key ns n) o (apply_request P S cfg d m body)
                (remote_not_management cfg));
      update_node_rule = λ key x.
          Keeps-Held _ (Stays.Keeps-update S L Test workspace key' (ground arith) node key x tt)
            (λ ns n o.
              Frame.Keeps-update S L secret (kubeconfig_key ns n) o node key x
                (inl (ground arith)));
      create_rule = λ key x.
          Keeps-Held _ (Stays.Keeps-create S L Test workspace key' workspace key x) (λ ns n o.
            Frame.Keeps-create S L secret (kubeconfig_key ns n) o workspace key x
              (inl (ground arith)));
      patch_rule = λ key x y.
          Keeps-Held _
            (Keeps-ExistsWith S L workspace key' (Test workspace) (λ o.
              Frame.Keeps-patch S L workspace key' o capi_cluster key x y (inl (ground arith))))
            (λ ns n o.
              Frame.Keeps-patch S L secret (kubeconfig_key ns n) o capi_cluster key x y
                (inl (ground arith)));
      config_far = λ w (_, elsewhere) ns n s cfg got made.
          elsewhere ns n s cfg (L.get_ok secret (kubeconfig_key ns n) w s got) made;
    }

    ensure_finalizer_rule : (obj : Kubernetes) → Keeps Held (ensure_finalizer P S R obj)
    ensure_finalizer_rule = Whole.Keeps-ensure_finalizer P S workspace_requests R (λ key x.
        Keeps-Held _ (Stays.Keeps-update S L Test workspace key' (ground arith) kubernetes key x tt)
          (λ ns n o.
            Frame.Keeps-update S L secret (kubeconfig_key ns n) o kubernetes key x
              (inl (ground arith))))

    reconcile_found_rule :
        (obj : Kubernetes) → obj.meta.deleting ≡ false → Keeps Held (reconcile_found P S R (ok obj))
    unfolding reconcile_found
    reconcile_found_rule obj alive = live obj.meta.deleting alive
      where
        live :
            (b : Bool)
            → b ≡ false
            → Keeps Held (
                if b
                then reconcile_delete P S R obj
                else (ensure_finalizer P S R obj >>= reconcile_live P S R))
        live true e = cc
        live false e =
            Keeps-bind _ _ (ensure_finalizer_rule obj)
              (Keeps-reconcile_live P S workspace_requests R)

    -- Over servers that are lawful (`IsLawful`). Let the object be read and not be deleted, and
    -- let no kubeconfig of a workload cluster that the servers hold lead to the endpoint of a
    -- given workspace. Then `Reconcile`, whether it succeeds or fails, leaves that workspace as it
    -- is: no workspace that is there already is taken over for a mount.
    pub reconcile_leaves_workspaces :
        (namespace name : Text) (obj : Kubernetes) (w : W)
        → (S.get kubernetes (management_key namespace name) w).0 ≡ ok obj
        → obj.meta.deleting ≡ false
        → LeadsElsewhere w
        → L.find workspace key' w ≡ some v
        → L.find workspace key' (reconcile P S R namespace name w).1 ≡ some v
    unfolding reconcile ◌>>=◌
    reconcile_leaves_workspaces namespace name obj w got alive elsewhere held =
        let ((o, found, same), _) =
          (reconcile_found_rule obj alive).at (S.get kubernetes (management_key namespace name) w).1
            ((workspace_requests.get_rule kubernetes (management_key namespace name)).at w
              ((v, held, refl), elsewhere)) in
        rw got (found ∙ ap some same)
