-- ===== src/Tests/Host.antt =====
-- The base URL for a request's host.
use dbaas.Prelude.{◌≡◌, ◌≢◌, refl, [], ◌∷◌, ◌++◌, Option, some, none}
use dbaas.Prelude.Text.{Text, codes, cut, contains, trim, is_space}
use dbaas.Exec.{Result, ok, err, errorf}
use dbaas.Provisioner.Host.{NetPackage, cleaned, external_base_url_for_host}
use dbaas.Provisioner.Host.Laws.{
  external_base_url_for_host_replaces_port, external_base_url_for_host_required,
}
use dbaas.Tests.Fixtures.{urls}

abbrev split_at : Text × Option Text → Result (Text × Text)
split_at (host, some port) = ok (host, port)
split_at (host, none) = err (errorf "missing port in address" [])

-- Addresses without brackets.
abbrev pub net : NetPackage
net = record {
  split_host_port = λ s. split_at (cut s b':');
  join_host_port = λ host port. host ++ b':' ∷ port;
}

clean_lem : cleaned (codes "localhost:8090") ≡ codes "localhost:8090"
unfolding cleaned trim is_space
clean_lem = refl

replaced_port :
    external_base_url_for_host urls net (codes "localhost:8090") (codes "https") (codes "6443")
    ≡ ok (codes "localhost:6443")
unfolding contains cut
replaced_port =
    external_base_url_for_host_replaces_port urls net (codes "localhost:8090")
      (codes "localhost:8090") (codes "localhost") (codes "8090") (codes "https") (codes "6443")
      (λ e. cc) (λ e. cc) (λ e. cc) clean_lem (λ e. cc) refl refl (λ e. cc)

external_base_url_for_host_required_example :
    (codes "localhost:8090" ≢ [])
    × (codes "https" ≢ [])
    × (codes "6443" ≢ [])
    × (cleaned (codes "localhost:8090") ≢ [])
external_base_url_for_host_required_example =
    external_base_url_for_host_required urls net (codes "localhost:8090") (codes "https")
      (codes "6443") (codes "localhost:6443") replaced_port
