-- ===== src/Controller/Reconcile/Routes.antt =====
-- The URL that `Reconcile` publishes, read by the mount proxy.
use dbaas.Prelude.{false, ◌∷◌, ◌++◌, none, some, ◌≡◌, refl, append_assoc}
use dbaas.Prelude.Text.{Text, slash, has_byte, trim_suffix}
use dbaas.Controller.Proxy.{mounts_prefix, parse_target}
use dbaas.Controller.Proxy.Laws.{parse_target_mounts, parse_target_short}
use dbaas.Controller.Reconcile.{mount_url}

-- With no slash in the namespace or the name: the published URL is the proxy's base URL and a
-- path; a request below that path is taken apart into the same namespace and name, and what is
-- behind goes on to the workload cluster; a request for that path itself is refused.
pub mount_url_routes :
    (base namespace name rest : Text)
    → has_byte slash namespace ≡ false
    → has_byte slash name ≡ false
    → (path : Text) × (mount_url base namespace name ≡ trim_suffix base slash ++ path)
      × (parse_target path ≡ none)
      × (parse_target (path ++ slash ∷ rest)
          ≡ some (record { namespace = namespace; name = name; upstream_path = slash ∷ rest }))
unfolding mount_url
mount_url_routes base namespace name rest h k = (
  mounts_prefix ++ (namespace ++ slash ∷ name),
  refl,
  parse_target_short namespace name h k,
  simp append_assoc (parse_target_mounts namespace name rest h k),
)
