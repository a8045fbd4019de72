-- ===== src/Tests/System.antt =====
-- The provisioner beside the two controllers.
use dbaas.Prelude.{arith, inl, ℕ, zero, suc, ◌≡◌, refl, sym, true, List, [], ◌∷◌}
use dbaas.Prelude.Text.{Text, codes, ◌==◌, split, split_parts, strip_prefix, has_byte}
use dbaas.Prelude.Dict
use dbaas.Prelude.Dict.{lookup}
use dbaas.Exec.{failure, Result, ok, err, ◌>>=◌, is_not_found}
use dbaas.Cluster.{cluster_role_binding, Key, Endpoint, MongoDb, mongodb, workspace}
use dbaas.Cluster.Calls.{
  All, delete_call, Call, get_call, patch_status_call, perform, run_calls, Oracle, both_empty,
  from_left, from_right,
}
use dbaas.Mck.{running, mongodb_found, reconcile_mongodb}
use dbaas.Provisioner.Bindings.Laws.{AllBound}
use dbaas.Provisioner.Credentials.Laws.{IsProvisioned}
use dbaas.Provisioner.Env.{client_for_workspace, cluster_key}
use dbaas.Provisioner.Stays.Idle.{ensure_workspace_setup_idle}
use dbaas.Provisioner.Stays.Complete.{is_started}
use dbaas.Provisioner.Workspaces.{
  Task, headlamp_task, reconcile_workspace_bindings, consumers_client, list_consumer_workspaces,
  ensure_workspace_setup, is_transient_phase, is_skipped, tasks_of, set_up, set_up_all,
  set_up_listed, delete_workspace,
}
use dbaas.Provisioner.Bindings.{
  ensure_workspace_bindings, ensure_bindings, ensure_binding, bind_missing,
}
use dbaas.Provisioner.Credentials.{
  ensure_scoped_workspace_credentials, ensure_credentials, ensure_workspace_namespace,
  create_missing, ensure_service_account, ensure_token_secret, ensure_admin_cluster_role_binding,
  role_binding_found, is_desired, mark_workspace_scoped_credentials, marked, token_of_raw,
  workspace_service_account_token, role_binding_key,
}
use dbaas.System.{Spares, Setting, mocking, behind, requests_of, Moment, idle, beside, serving}
use dbaas.System.Interrupted.{interrupted}
use dbaas.System.Deletions.{OnDelete, Deletes, Moment-Deletes}
use dbaas.System.Kept.{Moment-Prepared}
use dbaas.System.Setup.{Between, between_moments, reconcile_workspace_bindings_among_others}
use dbaas.Tests.Memory.{Memory, found, write_missing, write_present, put, replace}
use dbaas.Tests.Fixtures.{
  packages, urls, meta_of, reconciler, provisioner, binding, consumers, server, lawful,
}
use dbaas.Tests.Headlamp.{load, in_order}
use dbaas.Tests.Host.{net}
use dbaas.Tests.Provisioner.{client_of, run_setup, write_config}
use dbaas.Tests.Web.{web, prepared_lem, deletion}
use dbaas.Web.Serve.{
  serve, dispatch, route, post_route, post_below, get_route, is_get, workspace_segments,
}
use dbaas.Web.Handlers.{handle_delete_workspace}

abbrev setting : Setting
setting = record {
  net = net;
  web = web;
  url = urls;
  load = load;
  write = write_config;
  map_order = in_order;
  provisioner = provisioner;
  packages = packages;
  reconciler = reconciler;
  transport_for = λ cfg. ok tt;
  phase_running = codes "Running";
}

abbrev client : Endpoint
client = client_of (codes "root:c:w")

abbrev new_database : MongoDb
new_database = record {
  meta = meta_of [] [];
  generation = 1;
  version = codes "8";
  status = record { phase = []; version = []; message = []; observed_generation = 0 };
}

abbrev key_of : Text → Key
key_of name = record { endpoint = client; namespace = []; name = name }

-- Answers to the controller of databases.
abbrev answers : Oracle
answers older (get_call mongodb key) = ok new_database
answers older (patch_status_call k key x y) = ok tt
answers older _ = err (failure [])

abbrev read_database : Text → Call
read_database name = get_call mongodb (key_of name)

abbrev write_database : Text → Call
write_database name =
    patch_status_call mongodb (key_of name) new_database
      (record new_database { status = running (codes "Running") new_database })

mocking_lem :
    (name : Text)
    → requests_of setting server.new_client answers (mocking (key_of name))
      ≡ write_database name ∷ read_database name ∷ []
unfolding requests_of behind reconcile_mongodb mongodb_found ◌>>=◌
mocking_lem name = refl

-- Two databases, whose requests are interleaved.
abbrev two_at_once : List Call
two_at_once =
    write_database (codes "a")
    ∷ write_database (codes "b")
    ∷ read_database (codes "b")
    ∷ read_database (codes "a")
    ∷ []

two_at_once-Moment : Moment setting server.new_client two_at_once
two_at_once-Moment =
    beside (mocking (key_of (codes "a"))) answers []
      (write_database (codes "a") ∷ read_database (codes "a") ∷ [])
      (write_database (codes "b") ∷ read_database (codes "b") ∷ []) two_at_once
      (sym (mocking_lem (codes "a")))
      (beside (mocking (key_of (codes "b"))) answers []
        (write_database (codes "b") ∷ read_database (codes "b") ∷ []) []
        (write_database (codes "b") ∷ read_database (codes "b") ∷ [])
        (sym (mocking_lem (codes "b"))) idle (from_left _ _ _ _ (from_left _ _ _ _ both_empty)))
      (from_left _ _ _ _ (from_right _ _ _ _ (from_right _ _ _ _ (from_left _ _ _ _ both_empty))))

two_spared : All (Spares lawful client) two_at_once
two_spared = (tt, (tt, (tt, (tt, tt))))

Moment-Prepared_example :
    AllBound server lawful provisioner client
      (binding ∷ [])
      (run_calls server two_at_once (run_setup consumers).1)
    × IsProvisioned server lawful client (run_calls server two_at_once (run_setup consumers).1)
Moment-Prepared_example =
    Moment-Prepared server lawful client setting server.new_client two_at_once
      (run_setup consumers).1 two_at_once-Moment two_spared prepared_lem

-- They come before the second request of the periodic work, and once more behind it.
abbrev others : ℕ → List Call
others (suc zero) = two_at_once
others _ = []

others-Between : (n : ℕ) → Between setting server.new_client (others n)
others-Between zero = between_moments [] [] [] idle
others-Between (suc zero) = between_moments [] two_at_once [] two_at_once-Moment
others-Between (suc (suc n)) = between_moments [] [] [] idle

others_spare : (n : ℕ) → All (Spares lawful client) (others n)
others_spare zero = tt
others_spare (suc zero) = two_spared
others_spare (suc (suc n)) = tt

abbrev run_among : Memory → Result (List Task) × (Memory × ℕ)
run_among w = reconcile_workspace_bindings urls (interrupted server others) provisioner (w, 0)

run_among_lem : (run_among consumers).0 ≡ ok (headlamp_task (codes "w") true ∷ [])
unfolding reconcile_workspace_bindings list_consumer_workspaces set_up_listed set_up_all set_up
    is_skipped tasks_of is_transient_phase ensure_workspace_setup ensure_workspace_bindings
    ensure_bindings ensure_binding ◌>>=◌ found consumers_client client_for_workspace bind_missing
    is_not_found write_missing ensure_scoped_workspace_credentials ensure_credentials
    ensure_workspace_namespace create_missing put replace ensure_service_account ensure_token_secret
    ensure_admin_cluster_role_binding role_binding_found is_desired ◌==◌ lookup Dict.read
    mark_workspace_scoped_credentials marked token_of_raw workspace_service_account_token
    write_present run_calls perform
run_among_lem = refl

reconcile_workspace_bindings_among_others_example :
    AllBound server lawful provisioner client
      (binding ∷ [])
      (run_calls server two_at_once (run_among consumers).1.0)
    × IsProvisioned server lawful client (run_calls server two_at_once (run_among consumers).1.0)
unfolding client_for_workspace is_started ◌==◌
reconcile_workspace_bindings_among_others_example =
    reconcile_workspace_bindings_among_others server lawful setting client others others-Between
      others_spare (codes "w") (client_of (codes "root:c")) refl refl consumers
      (headlamp_task (codes "w") true ∷ []) two_at_once run_among_lem refl
      (between_moments [] two_at_once [] two_at_once-Moment) two_spared

-- The web server on the request to delete a workspace.
abbrev agreeing : Oracle
agreeing older (delete_call k key) = ok tt
agreeing older _ = err (failure [])

abbrev one_deletion : List Call
one_deletion = delete_call workspace (cluster_key (client_of (codes "root:c")) (codes "w")) ∷ []

deletion_lem : requests_of setting server.new_client agreeing (serving deletion) ≡ one_deletion
unfolding requests_of behind serve dispatch route post_route post_below get_route is_get
    workspace_segments split split_parts strip_prefix has_byte ◌==◌ ◌>>=◌ handle_delete_workspace
    delete_workspace consumers_client client_for_workspace
deletion_lem = refl

one_deletion-Moment : Moment setting server.new_client one_deletion
one_deletion-Moment =
    beside (serving deletion) agreeing [] one_deletion [] one_deletion (sym deletion_lem) idle
      (from_left _ _ _ _ both_empty)

Moment-Deletes_example :
    All (OnDelete (Deletes setting server.new_client one_deletion one_deletion-Moment)) one_deletion
Moment-Deletes_example = Moment-Deletes setting server.new_client one_deletion one_deletion-Moment

ensure_workspace_setup_idle_example :
    lawful.find cluster_role_binding
      (role_binding_key server client)
      (run_setup (run_setup consumers).1).1
    ≡ lawful.find cluster_role_binding (role_binding_key server client) (run_setup consumers).1
unfolding client_for_workspace
ensure_workspace_setup_idle_example =
    ensure_workspace_setup_idle server lawful urls provisioner (codes "w")
      (client_of (codes "root:c")) client refl refl (run_setup consumers).1 cluster_role_binding
      (role_binding_key server client) prepared_lem (inl (ground arith))
