-- ===== src/System/Safe.antt =====
-- The requests of the processes, whatever the servers answer.
use dbaas.Prelude.{List, [], refl, sym}
use mathlib.Core.Path.{subst}
use dbaas.Exec.{Result}
use dbaas.Cluster.{Server, RestConfig}
use dbaas.Cluster.Calls.{All, All-Merged, All-oldest, Call, Oracle, traced}
use dbaas.Cluster.Respects.{Respects}
use dbaas.Controller.Steps.{Requests}
use dbaas.Provisioner.Stays.{Fresh, Test}
use dbaas.System.Steps.{behind_rule}
use dbaas.System.{Setting, Activity, behind, requests_of, Moment, idle, beside, IsSafe}

module _ (E : Setting) (new_client : RestConfig → Result (Unit {0})) (oracle : Oracle) where
  abbrev T : Server (List Call)
  T = traced new_client oracle

  abbrev K : List Call → Type 0
  K = All IsSafe

  safe_respects : Respects T Fresh Test K
  safe_respects = record {
    reads = record {
      keeps_get = λ k key. record { at = λ w h. (tt, h) };
      keeps_list = λ k e ns selector. record { at = λ w h. (tt, h) };
    };
    keeps_create = λ k key x fresh. record { at = λ w h. (fresh, h) };
    keeps_update = λ k key x good. record { at = λ w h. (good, h) };
    keeps_patch_deployment = λ key body. record { at = λ w h. (tt, h) };
  }

  safe_requests : Requests E.packages T K (λ cfg. Unit {0})
  safe_requests = record {
    get_rule = λ k key. record { at = λ w h. (tt, h) };
    list_rule = λ k e ns selector. record { at = λ w h. (tt, h) };
    mapping_rule = λ e kind. record { at = λ w h. (tt, h) };
    apply_rule = λ cfg d m body apart. record { at = λ w h. (tt, h) };
    update_node_rule = λ key n. record { at = λ w h. (tt, h) };
    create_rule = λ key x. record { at = λ w h. (tt, h) };
    patch_rule = λ key x y. record { at = λ w h. (refl, h) };
    config_far = λ w h ns n s cfg got made. tt;
  }

  behind-AllSafe : (a : Activity) (t : List Call) → K t → K (behind E T a t)
  behind-AllSafe a =
      behind_rule E T safe_respects safe_requests (λ key x y. record { at = λ t h. (refl, h) })
        (λ key x. record { at = λ t h. (tt, h) }) a (λ key asked. record { at = λ t h. (refl, h) })

module _ (E : Setting) (new_client : RestConfig → Result (Unit {0})) where
  pub Moment-AllSafe : (calls : List Call) → Moment E new_client calls → All IsSafe calls
  unfolding requests_of
  Moment-AllSafe _ idle = tt
  Moment-AllSafe _ (beside a oracle pending made older calls part before m) =
      All-Merged IsSafe made older calls m
        (All-oldest IsSafe pending made
          (subst (All IsSafe) (sym part) (behind-AllSafe E new_client oracle a [] tt)))
        (Moment-AllSafe older before)
