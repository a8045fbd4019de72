-- ===== src/Tests/Loop.antt =====
-- The periodic work over all workspaces.
use dbaas.Prelude.{◌≡◌, refl, true, List, [], ◌∷◌}
use dbaas.Prelude.Text.{codes, ◌==◌}
use dbaas.Prelude.Dict
use dbaas.Prelude.Dict.{lookup}
use dbaas.Exec.{Result, ok, ◌>>=◌, is_not_found}
use dbaas.Provisioner.Bindings.{
  ensure_workspace_bindings, ensure_bindings, ensure_binding, bind_missing,
}
use dbaas.Provisioner.Bindings.Laws.{AllBound}
use dbaas.Provisioner.Credentials.Laws.{IsProvisioned, IsScoped}
use dbaas.Provisioner.Credentials.{
  ensure_scoped_workspace_credentials, ensure_credentials, ensure_workspace_namespace,
  create_missing, ensure_service_account, ensure_token_secret, ensure_admin_cluster_role_binding,
  role_binding_found, is_desired, mark_workspace_scoped_credentials, marked, token_of_raw,
  workspace_service_account_token,
}
use dbaas.Provisioner.Env.{client_for_workspace}
use dbaas.Provisioner.Stays.Complete.{is_started, reconcile_workspace_bindings_complete}
use dbaas.Provisioner.Workspaces.{
  Task, headlamp_task, consumers_client, list_consumer_workspaces, ensure_workspace_setup,
  is_transient_phase, is_skipped, tasks_of, set_up, set_up_all, set_up_listed,
  reconcile_workspace_bindings,
}
use dbaas.Tests.Memory.{Memory, found, write_missing, write_present, put, replace}
use dbaas.Tests.Fixtures.{urls, provisioner, binding, consumers, server, lawful}
use dbaas.Tests.Provisioner.{client_of}

abbrev pub run_loop : Memory → Result (List Task) × Memory
run_loop = reconcile_workspace_bindings urls server provisioner

pub run_loop_lem : (run_loop consumers).0 ≡ ok (headlamp_task (codes "w") true ∷ [])
unfolding reconcile_workspace_bindings list_consumer_workspaces set_up_listed set_up_all set_up
    is_skipped tasks_of is_transient_phase ensure_workspace_setup ensure_workspace_bindings
    ensure_bindings ensure_binding ◌>>=◌ found consumers_client client_for_workspace bind_missing
    is_not_found write_missing ensure_scoped_workspace_credentials ensure_credentials
    ensure_workspace_namespace create_missing put replace ensure_service_account ensure_token_secret
    ensure_admin_cluster_role_binding role_binding_found is_desired ◌==◌ lookup Dict.read
    mark_workspace_scoped_credentials marked token_of_raw workspace_service_account_token
    write_present
run_loop_lem = refl

reconcile_workspace_bindings_complete_example :
    (AllBound server lawful provisioner
        (client_of (codes "root:c:w"))
        (binding ∷ [])
        (run_loop consumers).1
      × IsProvisioned server lawful (client_of (codes "root:c:w")) (run_loop consumers).1)
    × IsScoped server lawful (client_of (codes "root:c")) (codes "w") (run_loop consumers).1
unfolding client_for_workspace is_started ◌==◌
reconcile_workspace_bindings_complete_example =
    reconcile_workspace_bindings_complete urls server lawful provisioner (codes "w")
      (client_of (codes "root:c")) (client_of (codes "root:c:w")) refl refl consumers
      (headlamp_task (codes "w") true ∷ []) run_loop_lem refl
