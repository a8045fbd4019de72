-- ===== src/Provisioner/Stays/Loop.antt =====
-- What the periodic work of the provisioner leaves in place.
use dbaas.Prelude.{Bool, true, false, List, [], ◌∷◌, Option, none, some}
use dbaas.Prelude.Text.{Text}
use dbaas.Prelude.Dict.{Dict, lookup}
use dbaas.Exec.{Result, ok, err}
use dbaas.Exec.Keeps.{Keeps, Keeps-bind, Keeps-pure, keeps_rules}
use dbaas.Url.{UrlPackage}
use dbaas.Cluster.{Server, Workspace, secret, Secret}
use dbaas.Cluster.Respects.{Respects}
use dbaas.Provisioner.Env.{Provisioner, admin, scoped, CredentialMode}
use dbaas.Provisioner.Kubeconfig.{Config}
use dbaas.Provisioner.Workspaces.{
  Task, headlamp_task, list_consumer_workspaces, set_up, set_up_all, set_up_listed,
  reconcile_workspace_bindings,
}
use dbaas.Provisioner.Headlamp.{
  MapOrder, fill_entry, fill_found, fill, select, with_config, headlamp_key, write_entries,
  sync_steps, sync_headlamp, reconcile_headlamp, run_task,
}
use dbaas.Provisioner.Reads.{
  Keeps-list_consumer_workspaces, Keeps-get_workspace, Keeps-workspace_service_account_token,
}
use dbaas.Provisioner.Stays.{Fresh, Test, Keeps-ensure_workspace_setup}

module _ {W : Type 0} {K : W → Type 0} (S : Server W) (Q : Respects S Fresh Test K) (U : UrlPackage)
    (P : Provisioner) where
  listing_rule : Keeps K (list_consumer_workspaces U S P)
  listing_rule = Keeps-list_consumer_workspaces S Q.reads U P

  pub Keeps-set_up : (ws : Workspace) → Keeps K (set_up U S P ws)
  unfolding set_up
  Keeps-set_up ws = search (keeps_rules, Keeps-ensure_workspace_setup S Q U P)

  pub Keeps-set_up_all : (ws : List Workspace) → Keeps K (set_up_all U S P ws)
  unfolding set_up_all
  Keeps-set_up_all [] = Keeps-pure _
  Keeps-set_up_all (w ∷ ws) =
      Keeps-bind _ _ (Keeps-set_up w)
        (λ _. Keeps-bind _ _ (Keeps-set_up_all ws) (λ _. Keeps-pure _))

  set_up_listed_rule : (r : Result (List Workspace)) → Keeps K (set_up_listed U S P r)
  unfolding set_up_listed
  set_up_listed_rule (err e) = Keeps-pure _
  set_up_listed_rule (ok ws) = Keeps-set_up_all ws

  pub Keeps-reconcile_workspace_bindings : Keeps K (reconcile_workspace_bindings U S P)
  unfolding reconcile_workspace_bindings
  Keeps-reconcile_workspace_bindings = search (keeps_rules, listing_rule, set_up_listed_rule)

  module _ (load : Text → Result Config) (write : Config → Result Text) (O : MapOrder) where
    fill_entry_rule :
        (name : Text) (mode : CredentialMode) (cfg : Config)
        → Keeps K (fill_entry load write U S P O name mode cfg)
    unfolding fill_entry
    fill_entry_rule name admin cfg = Keeps-pure _
    fill_entry_rule name scoped cfg =
        search (keeps_rules, Keeps-workspace_service_account_token S Q.reads U P)

    fill_found_rule :
        (name : Text) (o : Option Workspace) (cfg : Config)
        → Keeps K (fill_found load write U S P O name o cfg)
    unfolding fill_found
    fill_found_rule name none cfg = Keeps-pure _
    fill_found_rule name (some ws) cfg = fill_entry_rule name _ cfg

    fill_rule :
        (desired : Dict Workspace) (names : List Text) (cfg : Config)
        → Keeps K (fill load write U S P O desired names cfg)
    unfolding fill
    fill_rule desired [] cfg = Keeps-pure _
    fill_rule desired (n ∷ names) cfg =
        Keeps-bind _ _ (fill_found_rule n (lookup n desired) cfg) (fill_rule desired names)

    select_rule :
        (name : Text) (add : Bool) (desired : Dict Workspace)
        → Keeps K (select load write U S P O name add desired)
    unfolding select
    select_rule [] add desired = Keeps-pure _
    select_rule (c ∷ name) false desired = Keeps-pure _
    select_rule (c ∷ name) true desired = search (keeps_rules, Keeps-get_workspace S Q.reads U P)

    write_entries_rule :
        (now : Text) (s : Secret) (desired : Dict Workspace) (cfg : Config)
        → Keeps K (write_entries load write U S P O now s desired cfg)
    unfolding write_entries
    write_entries_rule now s desired cfg =
        search
          (
            keeps_rules,
            fill_rule,
            λ (text : Text).
                Q.keeps_update secret (headlamp_key P) (with_config load write U S P O text s) tt,
            Q.keeps_patch_deployment,
          )
          depth 12

    sync_steps_rule :
        (now name : Text) (add : Bool) → Keeps K (sync_steps load write U S P O now name add)
    unfolding sync_steps
    sync_steps_rule now name add =
        search (keeps_rules, Q.reads.keeps_get, listing_rule, select_rule, write_entries_rule) depth
          12

    pub Keeps-sync_headlamp :
        (now name : Text) (add : Bool) → Keeps K (sync_headlamp load write U S P O now name add)
    unfolding sync_headlamp
    Keeps-sync_headlamp now name add = search (keeps_rules, sync_steps_rule)

    pub Keeps-run_task : (now : Text) (t : Task) → Keeps K (run_task load write U S P O now t)
    unfolding run_task
    Keeps-run_task now (headlamp_task name add) = Keeps-sync_headlamp now name add

    pub Keeps-reconcile_headlamp :
        (now : Text) → Keeps K (reconcile_headlamp load write U S P O now)
    unfolding reconcile_headlamp
    Keeps-reconcile_headlamp now = Keeps-sync_headlamp now [] false
