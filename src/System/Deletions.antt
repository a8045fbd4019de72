-- ===== src/System/Deletions.antt =====
-- Who has the servers delete something.
use dbaas.Prelude.{List, [], ◌≡◌, ◌⊎◌, refl, sym, inl, inr}
use mathlib.Core.Path.{subst}
use dbaas.Exec.{Result}
use dbaas.Cluster.{Server, Key, RestConfig, Kind, workspace}
use dbaas.Cluster.Calls.{Call, delete_call, Oracle, traced, All, All-map, All-oldest, All-Merged}
use dbaas.Cluster.Respects.{Respects}
use dbaas.Controller.Steps.{Requests}
use dbaas.Provisioner.Stays.{Fresh, Test}
use dbaas.System.{Setting, Activity, requests_of, Moment, idle, beside, Asks}
use dbaas.System.Steps.{behind_rule}

-- What holds of a request if it is a deletion.
abbrev pub OnDelete : (Kind → Key → Type 0) → Call → Type 0
OnDelete X (delete_call k key) = X k key
OnDelete X _ = Unit

OnDelete-map :
    (X Y : Kind → Key → Type 0)
    → ((k : Kind) (key : Key) → X k key → Y k key)
    → (c : Call) → OnDelete X c
    → OnDelete Y c
OnDelete-map X Y f (Call.get_call k key) h = tt
OnDelete-map X Y f (Call.list_call k e ns selector) h = tt
OnDelete-map X Y f (Call.create_call k key x) h = tt
OnDelete-map X Y f (Call.update_call k key x) h = tt
OnDelete-map X Y f (Call.patch_call k key x y) h = tt
OnDelete-map X Y f (Call.patch_status_call k key x y) h = tt
OnDelete-map X Y f (Call.patch_deployment_call key body) h = tt
OnDelete-map X Y f (delete_call k key) h = f k key h
OnDelete-map X Y f (Call.mapping_call e kind) h = tt
OnDelete-map X Y f (Call.apply_call a) h = tt

module _ (E : Setting) (new_client : RestConfig → Result (Unit {0})) where
  -- A deletion is of a workspace, and one that the activity asks for.
  abbrev Own : Activity → Oracle → Kind → Key → Type 0
  Own a oracle k key = (k ≡ workspace) × Asks E (traced new_client oracle) a key

  module _ (a : Activity) (oracle : Oracle) where
    abbrev T : Server (List Call)
    T = traced new_client oracle

    abbrev K : List Call → Type 0
    K = All (OnDelete (Own a oracle))

    own_respects : Respects T Fresh Test K
    own_respects = record {
      reads = record {
        keeps_get = λ k key. record { at = λ t h. (tt, h) };
        keeps_list = λ k e ns selector. record { at = λ t h. (tt, h) };
      };
      keeps_create = λ k key x fresh. record { at = λ t h. (tt, h) };
      keeps_update = λ k key x good. record { at = λ t h. (tt, h) };
      keeps_patch_deployment = λ key body. record { at = λ t h. (tt, h) };
    }

    own_requests : Requests E.packages T K (λ cfg. Unit {0})
    own_requests = record {
      get_rule = λ k key. record { at = λ t h. (tt, h) };
      list_rule = λ k e ns selector. record { at = λ t h. (tt, h) };
      mapping_rule = λ e kind. record { at = λ t h. (tt, h) };
      apply_rule = λ cfg d m body apart. record { at = λ t h. (tt, h) };
      update_node_rule = λ key n. record { at = λ t h. (tt, h) };
      create_rule = λ key x. record { at = λ t h. (tt, h) };
      patch_rule = λ key x y. record { at = λ t h. (tt, h) };
      config_far = λ w h ns n s cfg got made. tt;
    }

    requests_of-Own : K (requests_of E new_client oracle a)
    unfolding requests_of
    requests_of-Own =
        behind_rule E T own_respects own_requests (λ key x y. record { at = λ t h. (tt, h) })
          (λ key x. record { at = λ t h. (tt, h) }) a
          (λ key asked. record { at = λ t h. ((refl, asked), h) }) [] tt

  -- The activity, with these answers, is one of those that are under way.
  abbrev pub TakesPart :
      Activity → Oracle → (calls : List Call) → Moment E new_client calls → Type 0
  TakesPart a oracle _ idle = ⊥
  TakesPart a oracle _ (beside a' oracle' pending made older calls part before m) =
      ((a ≡ a') × (oracle ≡ oracle')) ⊎ TakesPart a oracle older before

  -- Some activity that is under way asks for the deletion.
  abbrev pub IsAsked : (calls : List Call) → Moment E new_client calls → Key → Type 0
  IsAsked calls moment key =
      (a : Activity) × (oracle : Oracle) × TakesPart a oracle calls moment
      × Asks E (traced new_client oracle) a key

  -- The kind is that of workspaces, and the deletion is asked for.
  abbrev pub Deletes : (calls : List Call) → Moment E new_client calls → Kind → Key → Type 0
  Deletes calls moment k key = (k ≡ workspace) × IsAsked calls moment key

  -- Let answers of the web server, rounds of the periodic work, tasks, answers of the mount proxy
  -- and runs of the two controllers be under way at the same time, each at some point of its
  -- requests, with these in any order among each other and with any answers. Every deletion among
  -- the requests is of a workspace, and an activity that is under way asks for it: the web server
  -- on a request for the deletion of that workspace, or a run of the controller that has read an
  -- object whose deletion was asked for and that has the finalizer, for the workspace of the name
  -- derived from that object.
  pub Moment-Deletes :
      (calls : List Call) (moment : Moment E new_client calls)
      → All (OnDelete (Deletes calls moment)) calls
  Moment-Deletes _ idle = tt
  Moment-Deletes calls (beside a oracle pending made older _ part before m) =
      let now = beside a oracle pending made older calls part before m in
      All-Merged (OnDelete (Deletes calls now)) made older calls m
        (All-map (OnDelete (Own a oracle)) (OnDelete (Deletes calls now))
          (OnDelete-map (Own a oracle) (Deletes calls now)
            (λ k key own. (own.0, (a, oracle, inl (refl, refl), own.1))))
          made
          (All-oldest (OnDelete (Own a oracle)) pending made
            (subst (All (OnDelete (Own a oracle))) (sym part) (requests_of-Own a oracle))))
        (All-map (OnDelete (Deletes older before)) (OnDelete (Deletes calls now))
          (OnDelete-map (Deletes older before) (Deletes calls now)
            (λ k key (same, (b, o, there, asks)). (same, (b, o, inr there, asks))))
          older (Moment-Deletes older before))
