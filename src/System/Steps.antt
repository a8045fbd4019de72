-- ===== src/System/Steps.antt =====
-- The activities of the processes, over what their requests keep.
use dbaas.Prelude.{Option, none, some}
use dbaas.Exec.{Result, ok, err}
use dbaas.Exec.Keeps.{
  Keeps, Keeps-bind, Keeps-attempt, Keeps-if, Keeps-or_wrap, Keeps-pure, Keeps-raise,
}
use dbaas.Cluster.{
  Server, Key, RestConfig, secret, workspace, MongoDb, mongodb, Kubernetes, kubernetes,
}
use dbaas.Cluster.Respects.{Respects}
use dbaas.Controller.Proxy.{parse_target, serve_target, handler, Target}
use dbaas.Controller.Steps.{Requests}
use dbaas.Controller.Steps.Whole.{Keeps-reconcile}
use dbaas.Mck.{reconcile_mongodb, mongodb_found}
use dbaas.Provisioner.Stays.{Fresh, Test}
use dbaas.Provisioner.Stays.Loop.{Keeps-run_task}
use dbaas.Web.Serve.Steps.{Keeps-serve, Keeps-reconcile_round}
use dbaas.System.{
  Setting, Activity, serving, ticking, syncing, proxying, reconciling, mocking, behind, Asks,
  by_request, by_object,
}

-- What a controller asks for beside its reads.
module _ (E : Setting) {W : Type 0} {K : W → Type 0} {Far : RestConfig → Type 0} (S : Server W)
    (Q : Respects S Fresh Test K) (R : Requests E.packages S K Far)
    (patches_status : (key : Key) (x y : MongoDb) → Keeps K (S.patch_status mongodb key x y)) where
  mongodb_rule : (key : Key) (r : Result MongoDb) → Keeps K (mongodb_found E.phase_running S key r)
  unfolding mongodb_found
  mongodb_rule key (err e) = Keeps-if _ _ _ (Keeps-pure _) (Keeps-raise _)
  mongodb_rule key (ok o) =
      Keeps-bind _ _ (Keeps-or_wrap _ _ _ (patches_status _ _ _)) (λ _. Keeps-pure _)

  mocking_rule : (key : Key) → Keeps K (reconcile_mongodb E.phase_running S key)
  unfolding reconcile_mongodb
  mocking_rule key =
      Keeps-bind _ _ (Keeps-attempt _ (Q.reads.keeps_get mongodb key)) (mongodb_rule key)

  target_rule :
      (t : Option Target)
      → Keeps K (serve_target E.packages.rest_config E.packages.url.parse E.transport_for S t)
  unfolding serve_target
  target_rule none = Keeps-pure _
  target_rule (some t) =
      Keeps-bind _ _ (Keeps-attempt _ (Q.reads.keeps_get secret _)) (λ _. Keeps-pure _)

  module _
      (update_object : (key : Key) (x : Kubernetes) → Keeps K (S.update kubernetes key x)) where
    -- An activity keeps what its requests keep, with the deletions that it asks for.
    pub behind_rule :
        (a : Activity)
        → ((key : Key) → Asks E S a key → Keeps K (S.delete workspace key))
        → (w : W) → K w
        → K (behind E S a w)
    unfolding behind handler
    behind_rule (serving r) deletes =
        (Keeps-serve E.net E.web E.url E.write S E.provisioner Q r
          (λ name c reached known. deletes _ (by_request r name c reached known))).at
    behind_rule (ticking now) deletes =
        (Keeps-reconcile_round E.load E.write E.map_order E.url S E.provisioner Q now).at
    behind_rule (syncing now t) deletes =
        (Keeps-run_task S Q E.url E.provisioner E.load E.write E.map_order now t).at
    behind_rule (proxying path) deletes = (target_rule (parse_target path)).at
    behind_rule (reconciling namespace name) deletes =
        (Keeps-reconcile E.packages S R E.reconciler namespace name
          (λ obj leaving c. deletes _ (by_object namespace name obj c leaving)) update_object).at
    behind_rule (mocking key) deletes = (mocking_rule key).at
