-- ===== src/Provisioner/Host.antt =====
-- internal/provisioner/kubeconfig.go: `ExternalBaseURLForHost` and `hostWithoutPort`. Header values
-- are ASCII, so the white space of ASCII is all that `strings.TrimSpace` meets.
pub mod Laws
use dbaas.Prelude.{ℕ, Bool, true, false, ◌||◌, List, [], ◌∷◌, if◌then◌else◌, byte_eq}
use dbaas.Prelude.Text.{Text, codes, ◌==◌, trim, is_space, contains, has_prefix}
use dbaas.Exec.{Error, errorf, Result, ok, err, wrap_result}
use dbaas.Url.{Url, UrlPackage}

-- `net.SplitHostPort` and `net.JoinHostPort`
pub record NetPackage : Type 0 where
  pub split_host_port : Text → Result (Text × Text)
  pub join_host_port : Text → Text → Text

unfoldable pub is_quote : ℕ → Bool
is_quote c = byte_eq c 34

unfoldable pub is_bracket : ℕ → Bool
is_bracket c = byte_eq c 91 || byte_eq c 93

-- `strings.TrimSpace(strings.Trim(hostport, "\""))`
unfoldable pub cleaned : Text → Text
unfolding is_quote
cleaned hostport = trim is_space (trim is_quote hostport)

module _ (U : UrlPackage) (N : NetPackage) where
  -- The host of a URL, where the value is one.
  unfoldable pub authority : Text → Result Text
  authority hostport =
      if contains hostport (codes "://")
      then (elim (wrap_result "parsing host %q: %w" (hostport ∷ []) (U.parse hostport)) [
        | ok u ↦ ok u.host
        | err e ↦ err e
      ])
      else ok hostport

  -- The host of a pair of a host and a port, else the given text.
  unfoldable pub split_host : Text → Result (Text × Text) → Text
  split_host other (ok (host, [])) = other
  split_host other (ok (host, c ∷ port)) = host
  split_host other (err e) = other

  -- What a value is without a port: an address in brackets loses them.
  unfoldable pub without_port : Text → Text
  without_port hostport =
      if has_prefix hostport (codes "[")
      then split_host (trim is_bracket hostport) (N.split_host_port hostport)
      else split_host hostport (N.split_host_port hostport)

  unfoldable pub host_of_cleaned : Text → Result Text
  host_of_cleaned [] = err (errorf "host is required" [])
  host_of_cleaned (c ∷ hostport) = elim (authority (c ∷ hostport)) [
    | ok host ↦ ok (without_port host)
    | err e ↦ err e
  ]

  -- `hostWithoutPort`
  unfoldable pub host_without_port : Text → Result Text
  unfolding host_of_cleaned
  host_without_port hostport = host_of_cleaned (cleaned hostport)

  -- A URL of a scheme and a host.
  abbrev pub base_url : Text → Text → Url
  base_url scheme host = record {
    scheme = scheme;
    user = [];
    host = host;
    path = [];
    raw_query = [];
    fragment = [];
  }

  -- `ExternalBaseURLForHost(host, scheme, port)`
  unfoldable pub external_base_url_for_host : Text → Text → Text → Result Text
  unfolding host_without_port
  external_base_url_for_host [] scheme port = err (errorf "host is required" [])
  external_base_url_for_host (c ∷ host) [] port = err (errorf "scheme is required" [])
  external_base_url_for_host (c ∷ host) (d ∷ scheme) [] = err (errorf "port is required" [])
  external_base_url_for_host (c ∷ host) (d ∷ scheme) (p ∷ port) =
      elim (host_without_port (c ∷ host)) [
        | ok clean ↦ ok (U.print (base_url (d ∷ scheme) (N.join_host_port clean (p ∷ port))))
        | err e ↦ err e
      ]
