-- ===== src/Tests/Web.antt =====
-- Requests to the provisioner's web server.
use dbaas.Prelude.{◌≡◌, ◌↔◌, refl, true, [], ◌∷◌, some, arith}
use dbaas.Prelude.Text.{
  Text, codes, ◌==◌, has_byte, split, contains, cut, drop_while, drop_while_end, equal_fold,
  is_space, split_parts, strip_prefix, to_lower, trim,
}
use dbaas.Prelude.Dict
use dbaas.Prelude.Dict.{lookup}
use dbaas.Exec.{Error, ok, err, ◌>>=◌}
use dbaas.Cluster.{Workspace, workspace}
use dbaas.Provisioner.Bindings.Laws.{AllBound}
use dbaas.Provisioner.Credentials.{
  workspace_credential_mode, workspace_service_account_token, token_of_raw, marked,
}
use dbaas.Provisioner.Credentials.Laws.{IsProvisioned}
use dbaas.Provisioner.Env.{
  client_for_workspace, cluster_key, consumer_path, token_auth_info, workspace_service_account_name,
  scoped,
}
use dbaas.Provisioner.Workspaces.{headlamp_task, get_workspace, consumers_client}
use dbaas.Provisioner.Kubeconfig.{
  Config, kubeconfig_bytes_for_external_base_url, workspace_kubeconfig, user_of_mode,
  external_url_for_server,
}
use dbaas.Provisioner.Workspaces.Laws.{ensure_workspace_setup_complete}
use dbaas.Web.Forwarded.{
  Request, host_of_parts, host_of_entries, forwarded_header_host, host_of_part, after_host,
  request_external_base_url, forwarded_or_request_host,
}
use dbaas.Web.Handlers.{
  WebPackage, Answer, file, handle_kubeconfig, workspace_answer, kubeconfig_answer, file_answer,
}
use dbaas.Web.Handlers.Kubeconfig.{status_of, handle_kubeconfig_scoped, handle_kubeconfig_status}
use dbaas.Web.Serve.{route, to_kubeconfig, to_delete, serve, is_get}
use dbaas.Web.Serve.Paths.{route-links}
use dbaas.Web.Serve.Reads.{serve-get}
use dbaas.Provisioner.Host.{
  external_base_url_for_host, is_bracket, cleaned, host_of_cleaned, host_without_port, is_quote,
  authority, split_host, without_port,
}
use dbaas.Tests.Memory.{Memory, found}
use dbaas.Tests.Fixtures.{urls, provisioner, binding, consumers, server, lawful}
use dbaas.Tests.Host.{net}
use dbaas.Tests.Provisioner.{client_of, run_setup, write_config, run_setup_lem, scoped_workspace}

abbrev pub web : WebPackage
web = record { message = λ e. codes "failed"; query_escape = λ s. s }

abbrev request : Text → Text → Request
request method path = record {
  method = method;
  path = path;
  host = codes "localhost:8090";
  forwarded = codes "for=a; Host=\"h\"";
  x_forwarded_host = [];
  success = [];
  error = [];
  form_name = [];
}

route-links_example :
    (route (codes "GET") (codes "/api/workspaces/w/kubeconfig") ≡ to_kubeconfig (codes "w"))
    × (route (codes "POST") (codes "/api/workspaces/w/delete") ≡ to_delete (codes "w"))
unfolding has_byte
route-links_example = route-links (codes "w") refl (λ e. cc) (ground arith) (λ e. cc)

abbrev index : Request
index = request (codes "GET") (codes "/")

serve-get_example :
    lawful.find workspace
      (cluster_key (client_of (codes "root:c")) (codes "w"))
      (serve net web urls write_config server provisioner index consumers).1
    ≡ lawful.find workspace (cluster_key (client_of (codes "root:c")) (codes "w")) consumers
unfolding is_get ◌==◌
serve-get_example =
    serve-get net web urls write_config server provisioner lawful index consumers workspace
      (cluster_key (client_of (codes "root:c")) (codes "w")) refl

abbrev pub deletion : Request
deletion = request (codes "POST") (codes "/api/workspaces/w/delete")

pub prepared_lem :
    AllBound server lawful provisioner
      (client_of (codes "root:c:w"))
      (binding ∷ [])
      (run_setup consumers).1
    × IsProvisioned server lawful (client_of (codes "root:c:w")) (run_setup consumers).1
unfolding client_for_workspace
prepared_lem =
    (ensure_workspace_setup_complete urls server lawful provisioner (codes "w")
      (client_of (codes "root:c")) (client_of (codes "root:c:w")) refl refl consumers
      (headlamp_task (codes "w") true ∷ []) run_setup_lem).0

-- A workspace with scoped credentials and an address.
abbrev ready_workspace : Workspace
ready_workspace = record scoped_workspace { url = codes "kcp" }

abbrev ready : Memory
ready workspace key = some ready_workspace
ready kind key = consumers kind key

abbrev download : Request
download = request (codes "GET") (codes "/api/workspaces/w/kubeconfig")

got_lem : (get_workspace urls server provisioner (codes "w") ready).0 ≡ ok ready_workspace
unfolding get_workspace consumers_client client_for_workspace ◌>>=◌ found
got_lem = refl

mode_lem : workspace_credential_mode ready_workspace ≡ scoped
unfolding workspace_credential_mode marked Dict.insert Dict.read lookup ◌==◌
mode_lem = refl

download_lem :
    (handle_kubeconfig net web urls write_config server provisioner download (codes "w") ready).0
    ≡ ok (file (codes "w.kubeconfig") (codes "workspace"), [])
unfolding ◌==◌ handle_kubeconfig ◌>>=◌ workspace_answer get_workspace consumers_client
    client_for_workspace found kubeconfig_answer request_external_base_url
    external_base_url_for_host forwarded_or_request_host forwarded_header_host host_of_entries split
    host_of_parts host_of_part after_host lookup Dict.read contains cut drop_while drop_while_end
    equal_fold is_space split_parts strip_prefix to_lower trim token_of_raw
    workspace_credential_mode workspace_service_account_token is_bracket cleaned host_of_cleaned
    host_without_port is_quote authority split_host without_port external_url_for_server
    kubeconfig_bytes_for_external_base_url user_of_mode workspace_kubeconfig file_answer marked
    Dict.insert
download_lem = refl

handle_kubeconfig_scoped_example :
    (cfg : Config) × (write_config cfg ≡ ok (codes "workspace"))
    × ((token : Text) × ((workspace_service_account_token urls server provisioner
            (consumer_path urls server provisioner (codes "w"))
            (get_workspace urls server provisioner (codes "w") ready).1).0
          ≡ ok token)
        × (cfg.auth_infos ≡ (workspace_service_account_name, token_auth_info token) ∷ []))
unfolding marked
handle_kubeconfig_scoped_example =
    handle_kubeconfig_scoped net web urls write_config server provisioner download (codes "w") ready
      ready_workspace (codes "w.kubeconfig") (codes "workspace") [] got_lem mode_lem download_lem

handle_kubeconfig_status_example :
    (answer : Answer) × ((handle_kubeconfig net web urls write_config server provisioner download
        (codes "w")
        ready).0
      ≡ ok answer)
    × (((status_of answer.0 ≡ 404)
          ↔ ((e : Error) × ((get_workspace urls server provisioner (codes "w") ready).0 ≡ err e)))
        × ((status_of answer.0 ≡ 409) ↔ (
            (ws : Workspace) × ((get_workspace urls server provisioner (codes "w") ready).0 ≡ ok ws)
            × (ws.url ≡ []))))
handle_kubeconfig_status_example =
    handle_kubeconfig_status net web urls write_config server provisioner download (codes "w") ready
