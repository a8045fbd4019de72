-- ===== src/Controller/Proxy/Laws.antt =====
-- Which paths the mount proxy takes, which secret it reads, and where it sends a request.
use dbaas.Prelude.{true, false, [], ◌∷◌, ◌++◌, none, some, ◌≡◌, arith, append_assoc, ◌≢◌}
use dbaas.Prelude.Text.{
  Text, codes, slash, has_prefix, trim_prefix, trim_prefix-append, split_n, cut, cut-append,
  cut-none, has_byte, trim_prefix_same, trim_suffix, trim_suffix-ends_with, trim_suffix_same,
}
use dbaas.Controller.Proxy.{
  mounts_prefix, parse_target, join_url_path, ProxyUrl, handler, answer_of_secret, forward, refuse,
  kubeconfig_key, Target, status_bad_gateway, Answer,
}
use dbaas.Exec.{Result, ok, err, ◌>>=◌}
use dbaas.Cluster.{RestConfig, Server, Secret, secret}
use dbaas.Prelude.Dict
use dbaas.Url.{Url}

-- Every path /mounts/<namespace>/<name>/<rest> with no slash in the namespace or the name is taken
-- apart into its parts, whatever the rest is.
pub parse_target_mounts :
    (namespace name rest : Text)
    → has_byte slash namespace ≡ false
    → has_byte slash name ≡ false
    → parse_target (mounts_prefix ++ (namespace ++ slash ∷ (name ++ slash ∷ rest)))
      ≡ some (record { namespace = namespace; name = name; upstream_path = slash ∷ rest })
unfolding parse_target split_n
parse_target_mounts namespace name rest h k = rw (trim_prefix-append mounts_prefix) (
    ground
      (arith, cut-append slash namespace (name ++ slash ∷ rest) h, cut-append slash name rest k))

-- Without a slash behind the name, a path under /mounts/ with no other slash in the namespace or
-- the name is refused.
pub parse_target_short :
    (namespace name : Text)
    → has_byte slash namespace ≡ false
    → has_byte slash name ≡ false
    → parse_target (mounts_prefix ++ (namespace ++ slash ∷ name)) ≡ none
unfolding parse_target split_n
parse_target_short namespace name h k =
    rw (trim_prefix-append mounts_prefix)
      (ground (arith, cut-append slash namespace name h, cut-none slash name k))

-- A path that is not under /mounts/ is taken too if it has a second slash: its first part is the
-- name, and the namespace is empty.
pub parse_target_unprefixed :
    (name rest : Text)
    → has_byte slash name ≡ false
    → has_prefix (slash ∷ (name ++ slash ∷ rest)) mounts_prefix ≡ false
    → parse_target (slash ∷ (name ++ slash ∷ rest))
      ≡ some (record { namespace = []; name = name; upstream_path = slash ∷ rest })
unfolding parse_target
parse_target_unprefixed name rest h k =
    rw (trim_prefix_same (slash ∷ (name ++ slash ∷ rest)) mounts_prefix k)
      (unfold split_n cut in ground (arith, cut-append slash name rest h))

trim_prefix-slash :
    (s : Text) → has_prefix s (slash ∷ []) ≡ true → s ≡ slash ∷ trim_prefix s (slash ∷ [])
unfolding has_prefix trim_prefix
trim_prefix-slash [] h = cc
trim_prefix-slash (x ∷ s) h = ground arith

-- The two paths are joined by exactly one slash, whichever of them has one at the seam.
pub join_url_path_one_slash :
    (base request : Text)
    → join_url_path base request
      ≡ trim_suffix base slash ++ slash ∷ trim_prefix request (slash ∷ [])
unfolding join_url_path
join_url_path_one_slash base request = ground (
  arith,
  trim_suffix-ends_with base slash,
  trim_suffix_same base slash,
  trim_prefix_same request (slash ∷ []),
  trim_prefix-slash request,
  append_assoc (trim_suffix base slash) (slash ∷ []) (trim_prefix request (slash ∷ [])),
)

-- An answer that sends the request on, or says 502.
abbrev pub IsServed : Result Answer → Type 0
IsServed (ok (forward cfg url)) = Unit
IsServed (ok (refuse code why)) = code ≡ status_bad_gateway
IsServed (err e) = ⊥

-- `clientcmd.RESTConfigFromKubeConfig`, `url.Parse` and `rest.TransportFor`, and the servers.
module _ (rest_config : Text → Result RestConfig) (parse_url : Text → Result Url)
    (transport_for : RestConfig → Result (Unit {0})) {W : Type 0} (S : Server W) where
  -- A request for /mounts/<namespace>/<name>/<rest>, with no slash in the namespace or the name,
  -- goes to the host of that cluster's kubeconfig, with the rest behind the path of the host, if
  -- the secret <name>-kubeconfig of the namespace is read, its kubeconfig is usable, its host
  -- parses and its transport can be built. The servers see one request, the read of that secret.
  pub handler_mounts :
      (namespace name rest : Text) (w : W) (s : Secret) (cfg : RestConfig) (target : Url)
      → has_byte slash namespace ≡ false
      → has_byte slash name ≡ false
      → (S.get secret (kubeconfig_key namespace name) w).0 ≡ ok s
      → Dict.read (codes "value") s.value ≢ []
      → rest_config (Dict.read (codes "value") s.value) ≡ ok cfg
      → parse_url cfg.host ≡ ok target
      → transport_for cfg ≡ ok tt
      → handler rest_config parse_url transport_for S
          (mounts_prefix ++ (namespace ++ slash ∷ (name ++ slash ∷ rest)))
          w
        ≡ (
          ok (
              forward cfg (record {
                scheme = target.scheme;
                host = target.host;
                path = trim_suffix target.path slash ++ slash ∷ rest;
              })),
          (S.get secret (kubeconfig_key namespace name) w).1,
        )
  unfolding handler answer_of_secret ◌>>=◌
  handler_mounts namespace name rest w s cfg target h k got ne parsed host transport = ground (
    arith,
    parse_target_mounts namespace name rest h k,
    join_url_path_one_slash target.path (slash ∷ rest),
    trim_prefix-append (slash ∷ []) rest,
  )

  -- If a request is sent on, its path names a cluster, and the credentials are those of that
  -- cluster's kubeconfig secret.
  pub handler_forward_sound :
      (path : Text) (w : W) (cfg : RestConfig) (url : ProxyUrl)
      → (handler rest_config parse_url transport_for S path w).0 ≡ ok (forward cfg url)
      → (t : Target) × (s : Secret) × (parse_target path ≡ some t)
        × ((S.get secret (kubeconfig_key t.namespace t.name) w).0 ≡ ok s)
        × (rest_config (Dict.read (codes "value") s.value) ≡ ok cfg)
  unfolding handler answer_of_secret ◌>>=◌
  handler_forward_sound path w cfg url h = ground arith

  -- Status 400 goes to no path but one that has too few parts: the proxy sends every other request
  -- on, or answers it with status 502.
  pub handler-IsServed :
      (path : Text) (w : W)
      → parse_target path ≢ none
      → IsServed (handler rest_config parse_url transport_for S path w).0
  unfolding handler answer_of_secret ◌>>=◌
  handler-IsServed path w good = ground arith
