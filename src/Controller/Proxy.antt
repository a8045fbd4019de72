-- ===== src/Controller/Proxy.antt =====
-- internal/controller/kubernetes/mount_proxy.go: `MountProxy.Handler` and `joinURLPath`.
pub mod Laws
use dbaas.Prelude.{
  ℕ, Bool, true, false, not, ◌&&◌, List, [], ◌∷◌, ◌++◌, Option, none, some, if◌then◌else◌,
}
use dbaas.Prelude.Text.{Text, codes, slash, has_prefix, trim_prefix, ends_with, split_n}
use dbaas.Prelude.Dict
use dbaas.Url.{Url}
use dbaas.Exec.{Error, Result, ok, err, Exec, pure, attempt, ◌>>=◌}
use dbaas.Cluster.{Server, Key, management, RestConfig, Kind, secret, Secret}

abbrev pub mounts_prefix : Text
mounts_prefix = codes "/mounts/"

-- What the path of a request names.
pub record Target : Type 0 where
  pub namespace : Text
  pub name : Text
  pub upstream_path : Text

-- `strings.SplitN(path, "/", 3)` has at most three parts: fewer are refused.
unfoldable pub target_of_parts : List Text → Option Target
target_of_parts (namespace ∷ name ∷ rest ∷ []) =
    some (record { namespace = namespace; name = name; upstream_path = slash ∷ rest })
target_of_parts _ = none

unfoldable pub parse_target : Text → Option Target
unfolding target_of_parts
parse_target path = target_of_parts (split_n (trim_prefix path mounts_prefix) slash 3)

-- `joinURLPath(basePath, requestPath)`
unfoldable pub join_url_path : Text → Text → Text
join_url_path base_path request_path =
    if ends_with base_path slash && has_prefix request_path (slash ∷ [])
    then base_path ++ trim_prefix request_path (slash ∷ [])
    else if not (ends_with base_path slash) && not (has_prefix request_path (slash ∷ []))
    then base_path ++ slash ∷ request_path
    else base_path ++ request_path

-- The parts of the outgoing URL that the proxy sets.
pub record ProxyUrl : Type 0 where
  pub scheme : Text
  pub host : Text
  pub path : Text

-- Why the proxy answers with an error of its own.
pub data Refusal : Type 0 where
  bad_path missing_data : Refusal
  no_secret bad_kubeconfig bad_host no_transport : Error → Refusal

-- The answer: an error page with its status, or the request that is sent on to the workload
-- cluster: its scheme, host and path, over the transport of the kubeconfig.
pub data Answer : Type 0 where
  refuse : ℕ → Refusal → Answer
  forward : RestConfig → ProxyUrl → Answer

abbrev pub status_bad_request : ℕ
status_bad_request = 400

abbrev pub status_bad_gateway : ℕ
status_bad_gateway = 502

-- The key of a workload cluster's kubeconfig.
abbrev pub kubeconfig_key : Text → Text → Key
kubeconfig_key namespace name = record {
  endpoint = management;
  namespace = namespace;
  name = name ++ codes "-kubeconfig";
}

-- `clientcmd.RESTConfigFromKubeConfig`, `url.Parse` and `rest.TransportFor`.
module _ (rest_config : Text → Result RestConfig) (parse_url : Text → Result Url)
    (transport_for : RestConfig → Result (Unit {0})) where
  -- From the kubeconfig's bytes to the answer.
  unfoldable pub answer_of_kubeconfig : Text → Text → Answer
  answer_of_kubeconfig [] upstream_path = refuse status_bad_gateway missing_data
  answer_of_kubeconfig (c ∷ bytes) upstream_path = elim (rest_config (c ∷ bytes)) [
    | err e ↦ refuse status_bad_gateway (bad_kubeconfig e)
    | ok cfg ↦ elim (parse_url cfg.host) [
      | err e ↦ refuse status_bad_gateway (bad_host e)
      | ok target ↦ elim (transport_for cfg) [
        | err e ↦ refuse status_bad_gateway (no_transport e)
        | ok _ ↦ forward cfg (record {
          scheme = target.scheme;
          host = target.host;
          path = join_url_path target.path upstream_path;
        })
      ]
    ]
  ]

  unfoldable pub answer_of_secret : Result Secret → Text → Answer
  unfolding answer_of_kubeconfig
  answer_of_secret (err e) upstream_path = refuse status_bad_gateway (no_secret e)
  answer_of_secret (ok s) upstream_path =
      answer_of_kubeconfig (Dict.read (codes "value") s.value) upstream_path

  module _ {W : Type 0} (S : Server W) where
    -- The handler, at the path of the request's URL.
    unfoldable pub serve_target : Option Target → Exec W Answer
    serve_target none = pure (refuse status_bad_request bad_path)
    serve_target (some t) = do
      s ← attempt (S.get secret (kubeconfig_key t.namespace t.name))
      pure (answer_of_secret s t.upstream_path)

    unfoldable pub handler : Text → Exec W Answer
    unfolding serve_target
    handler path = serve_target (parse_target path)
