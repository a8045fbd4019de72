-- ===== src/Provisioner/Host/Laws.antt =====
-- The host, the scheme and the port of `ExternalBaseURLForHost`.
use dbaas.Prelude.{false, [], ◌∷◌, ◌≡◌, ◌≢◌, refl, arith}
use dbaas.Prelude.Text.{Text, codes, contains}
use dbaas.Exec.{ok}
use dbaas.Url.{UrlPackage}
use dbaas.Provisioner.Host.{
  NetPackage, cleaned, authority, split_host, without_port, host_of_cleaned, host_without_port,
  base_url, external_base_url_for_host,
}

module _ (U : UrlPackage) (N : NetPackage) where
  without_port-split :
      (hostport host old_port : Text)
      → N.split_host_port hostport ≡ ok (host, old_port)
      → old_port ≢ []
      → without_port U N hostport ≡ host
  unfolding without_port split_host
  without_port-split hostport host [] split some_port = absurd (some_port refl)
  without_port-split hostport host (c ∷ old_port) split some_port = ground arith

  host_without_port-split :
      (value hostport host old_port : Text)
      → cleaned value ≡ hostport
      → hostport ≢ []
      → contains hostport (codes "://") ≡ false
      → N.split_host_port hostport ≡ ok (host, old_port)
      → old_port ≢ []
      → host_without_port U N value ≡ ok host
  unfolding host_without_port host_of_cleaned authority
  host_without_port-split value [] host old_port clean some_host plain split some_port =
      absurd (some_host refl)
  host_without_port-split value (c ∷ s) host old_port clean some_host plain split some_port = rw (
    clean,
    host_of_cleaned,
    authority,
    plain,
    without_port-split (c ∷ s) host old_port split some_port,
  )

  -- Given a host value, a scheme and a port, none empty: if the value without its quotes and outer
  -- white space is not empty, is no URL, and is split into a host and a nonempty port, then the
  -- base URL has the scheme and that host, with the given port in place of the old one.
  pub external_base_url_for_host_replaces_port :
      (value hostport host old_port scheme port : Text)
      → value ≢ []
      → scheme ≢ []
      → port ≢ []
      → cleaned value ≡ hostport
      → hostport ≢ []
      → contains hostport (codes "://") ≡ false
      → N.split_host_port hostport ≡ ok (host, old_port)
      → old_port ≢ []
      → external_base_url_for_host U N value scheme port
        ≡ ok (U.print (base_url U N scheme (N.join_host_port host port)))
  unfolding external_base_url_for_host
  external_base_url_for_host_replaces_port [] _ _ _ _ _ v s p _ _ _ _ _ = absurd (v refl)
  external_base_url_for_host_replaces_port (_ ∷ _) _ _ _ [] _ v s p _ _ _ _ _ = absurd (s refl)
  external_base_url_for_host_replaces_port (_ ∷ _) _ _ _ (_ ∷ _) [] v s p _ _ _ _ _ =
      absurd (p refl)
  external_base_url_for_host_replaces_port (c ∷ t) hostport host old_port (d ∷ _) (e ∷ _) v s p
        clean some_host plain split some_port =
      rw (
        external_base_url_for_host,
        host_without_port-split (c ∷ t) hostport host old_port clean some_host plain split
            some_port,
      )

  -- There is a base URL only if the host value, the scheme and the port are given, and something
  -- is left of the host value without its quotes and outer white space.
  pub external_base_url_for_host_required :
      (value scheme port url : Text)
      → external_base_url_for_host U N value scheme port ≡ ok url
      → (value ≢ []) × (scheme ≢ []) × (port ≢ []) × (cleaned value ≢ [])
  unfolding external_base_url_for_host host_without_port host_of_cleaned
  external_base_url_for_host_required [] scheme port url done = cc
  external_base_url_for_host_required (c ∷ s) [] port url done = cc
  external_base_url_for_host_required (c ∷ s) (d ∷ t) [] url done = cc
  external_base_url_for_host_required (c ∷ s) (d ∷ t) (p ∷ q) url done = ground arith
