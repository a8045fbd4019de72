-- ===== src/System/Kept.antt =====
-- What the setup of a workspace leaves in it, under the requests of all processes.
use dbaas.Prelude.{false, List, [], ◌∷◌, ◌≡◌, ◌≢◌, ◌∙◌, none, sym, inl}
use mathlib.Core.Path.{subst}
use dbaas.Exec.{Result}
use dbaas.Exec.Keeps.{Keeps}
use dbaas.Cluster.{
  Server, Key, Endpoint, RestConfig, Kind, Object, kubernetes, capi_cluster, secret, config_map,
  workspace, logical_cluster, api_binding, name_space, service_account, cluster_role_binding,
  database, node, mongodb,
}
use dbaas.Cluster.Calls.{All, All-both, Call, perform, run_calls}
use dbaas.Cluster.Lawful.{IsLawful}
use dbaas.Cluster.Lawful.Exists.{Keeps-ExistsWith}
use dbaas.Cluster.Lawful.Frame
use dbaas.Cluster.Lawful.Stays
use dbaas.Cluster.Lawful.Vacant
use dbaas.Provisioner.Bindings.Laws.{AllBound}
use dbaas.Provisioner.Credentials.Laws.{IsProvisioned}
use dbaas.Provisioner.Stays.{Fresh, Test, Kept}
use dbaas.Provisioner.Stays.Prepared.{
  Keeps-prepared, InSetup, InSetup-ne-kubernetes, IsLeft, IsLeft-apart,
}
use dbaas.System.{Setting, Moment, IsSafe, Spares, IsHarmless}
use dbaas.System.Safe.{Moment-AllSafe}

Fresh-Test : (k : Kind) (x : Object k) → IsLeft k → Fresh k x → Test k x
Fresh-Test kubernetes x left fresh = tt
Fresh-Test capi_cluster x left fresh = tt
Fresh-Test secret x left fresh = tt
Fresh-Test config_map x left fresh = tt
Fresh-Test workspace x left fresh = absurd left
Fresh-Test logical_cluster x left fresh = tt
Fresh-Test api_binding x left fresh = tt
Fresh-Test name_space x left fresh = tt
Fresh-Test service_account x left fresh = tt
Fresh-Test cluster_role_binding x left fresh = fresh
Fresh-Test database x left fresh = tt
Fresh-Test node x left fresh = tt
Fresh-Test mongodb x left fresh = tt

module _ {W : Type 0} (S : Server W) (L : IsLawful S) (client : Endpoint) (K : W → Type 0)
    (step : (c : Call) → IsHarmless L client c → Keeps K (perform S c)) where
  -- Such requests keep what each of them keeps.
  pub run_calls_rule :
      (calls : List Call) (w : W) → All (IsHarmless L client) calls → K w → K (run_calls S calls w)
  unfolding run_calls
  run_calls_rule [] w _ h = h
  run_calls_rule (c ∷ older) w (safe, rest) h =
      (step c safe).at (run_calls S older w) (run_calls_rule older w rest h)

module _ {W : Type 0} (S : Server W) (L : IsLawful S) (client : Endpoint) where
  module _ (k : Kind) (key : Key) (here : InSetup client k key) where
    apart : (k' : Kind) → ¬ IsLeft k' → {j : Kind} → j ≡ k' → j ≢ k
    apart k' not_left safe = subst (λ n. n ≢ k) (sym safe) (IsLeft-apart k k' here.0 not_left)

    -- A request that is safe keeps every object of the setup.
    pub Keeps-Kept : (c : Call) → IsHarmless L client c → Keeps (Kept S L k key) (perform S c)
    unfolding perform
    Keeps-Kept (Call.get_call j i) (safe, spared) = Stays.Keeps-get S L Test k key j i
    Keeps-Kept (Call.list_call j e ns s) (safe, spared) = Stays.Keeps-list S L Test k key j e ns s
    Keeps-Kept (Call.create_call j i x) (safe, spared) = Stays.Keeps-create S L Test k key j i x
    Keeps-Kept (Call.update_call j i x) (safe, spared) =
        Stays.Keeps-update S L Test k key (InSetup-ne-kubernetes client k key here) j i x safe
    Keeps-Kept (Call.patch_call j i x y) (safe, spared) =
        Keeps-ExistsWith S L k key (Test k)
          (λ o. Frame.Keeps-patch S L k key o j i x y (inl (apart capi_cluster (λ n. n) safe)))
    Keeps-Kept (Call.patch_status_call j i x y) (safe, spared) =
        Keeps-ExistsWith S L k key (Test k)
          (λ o. Frame.Keeps-patch_status S L k key o j i x y (inl (apart mongodb (λ n. n) safe)))
    Keeps-Kept (Call.patch_deployment_call i body) (safe, spared) =
        Stays.Keeps-patch_deployment S L Test k key i body
    Keeps-Kept (Call.delete_call j i) (safe, spared) =
        Stays.Keeps-delete S L Test k key j i (apart workspace (λ n. n) safe)
          (subst (λ e. L.contains i e ≡ false) (sym here.1) spared)
    Keeps-Kept (Call.mapping_call e kind) (safe, spared) =
        Keeps-ExistsWith S L k key (Test k) (λ o. Frame.Keeps-mapping S L k key o e kind)
    Keeps-Kept (Call.apply_call a) (safe, spared) =
        Keeps-ExistsWith S L k key (Test k)
          (λ o. Frame.Keeps-apply S L k key o a (subst (λ e. a.endpoint ≢ e) (sym here.1) spared))

    untouched :
        (c : Call)
        → IsHarmless L client c
        → Keeps (Frame.Holds S L k key none) (perform S c)
        → Keeps (Vacant.Vacant S L Test k key) (perform S c)
    untouched c safe = Vacant.Keeps-untouched S L Test k key _ (Keeps-Kept c safe)

    same_kind_rule : {j : Kind} (x : Object j) → Fresh j x → j ≡ k → Test j x
    same_kind_rule {j} x fresh same = Fresh-Test j x (subst IsLeft (sym same) here.0) fresh

    -- Such a request does not fill a place of the setup with what fails the test.
    pub Keeps-Vacant :
        (c : Call) → IsHarmless L client c → Keeps (Vacant.Vacant S L Test k key) (perform S c)
    unfolding perform
    Keeps-Vacant (Call.get_call j i) (safe, spared) =
        untouched (Call.get_call j i) (safe, spared) (Frame.Keeps-get S L k key none j i)
    Keeps-Vacant (Call.list_call j e ns s) (safe, spared) =
        untouched (Call.list_call j e ns s) (safe, spared)
          (Frame.Keeps-list S L k key none j e ns s)
    Keeps-Vacant (Call.create_call j i x) (safe, spared) =
        Vacant.Keeps-create S L Test k key j i x (same_kind_rule x safe)
    Keeps-Vacant (Call.update_call j i x) (safe, spared) =
        Vacant.Keeps-update S L Test k key j i x (InSetup-ne-kubernetes client k key here) safe
    Keeps-Vacant (Call.patch_call j i x y) (safe, spared) =
        untouched (Call.patch_call j i x y) (safe, spared)
          (Frame.Keeps-patch S L k key none j i x y (inl (apart capi_cluster (λ n. n) safe)))
    Keeps-Vacant (Call.patch_status_call j i x y) (safe, spared) =
        untouched (Call.patch_status_call j i x y) (safe, spared)
          (Frame.Keeps-patch_status S L k key none j i x y (inl (apart mongodb (λ n. n) safe)))
    Keeps-Vacant (Call.patch_deployment_call i body) (safe, spared) =
        untouched (Call.patch_deployment_call i body) (safe, spared)
          (record { at = λ w h. L.find-patch_deployment i body w k key ∙ h })
    Keeps-Vacant (Call.delete_call j i) (safe, spared) =
        untouched (Call.delete_call j i) (safe, spared)
          (Frame.Keeps-delete S L k key none j i (inl (apart workspace (λ n. n) safe))
            (subst (λ e. L.contains i e ≡ false) (sym here.1) spared))
    Keeps-Vacant (Call.mapping_call e kind) (safe, spared) =
        untouched (Call.mapping_call e kind) (safe, spared)
          (Frame.Keeps-mapping S L k key none e kind)
    Keeps-Vacant (Call.apply_call a) (safe, spared) =
        untouched (Call.apply_call a) (safe, spared)
          (Frame.Keeps-apply S L k key none a (subst (λ e. a.endpoint ≢ e) (sym here.1) spared))

  module _ (E : Setting) (new_client : RestConfig → Result (Unit {0})) where
    -- Over servers that are lawful (`IsLawful`). Let answers of the web server, rounds of the
    -- periodic work, tasks, answers of the mount proxy and runs of the two controllers be under
    -- way at the same time, each at some point of its requests, with these in any order among each
    -- other and with any answers. Let none of the requests delete a given workspace or what holds
    -- it, and none apply a document of a manifest at its endpoint. If the bindings of the
    -- workspace, its namespace, service account and token secret, and its role binding with
    -- cluster-admin for the service account alone are there before these requests, they are there
    -- after them.
    pub Moment-Prepared :
        (calls : List Call) (w : W)
        → Moment E new_client calls
        → All (Spares L client) calls
        → AllBound S L E.provisioner client E.provisioner.bindings w × IsProvisioned S L client w
        → AllBound S L E.provisioner client E.provisioner.bindings (run_calls S calls w)
          × IsProvisioned S L client (run_calls S calls w)
    Moment-Prepared calls w moment spares =
        run_calls_rule S L client _
          (λ c harmless.
            Keeps-prepared S L (perform S c) E.provisioner client
              (λ k key here. Keeps-Kept k key here c harmless))
          calls w
          (All-both IsSafe (Spares L client) calls (Moment-AllSafe E new_client calls moment)
            spares)
