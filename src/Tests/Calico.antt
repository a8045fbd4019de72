-- ===== src/Tests/Calico.antt =====
-- The Calico manifest in a workload cluster.
use dbaas.Prelude.{List, [], ◌∷◌, ◌≡◌, refl, true, false}
use dbaas.Prelude.Text.{Text, codes, ◌==◌}
use dbaas.Prelude.Dict
use dbaas.Prelude.Dict.{lookup}
use dbaas.Exec.{failure, Result, ok, err, ◌>>=◌}
use dbaas.Cluster.{Document, RestConfig, secret, config_map}
use dbaas.Cluster.Calls.{Call, Oracle, get_call, mapping_call, apply_call, traced}
use dbaas.Controller.Env.{Packages}
use dbaas.Controller.Workload.{
  ensure_calico_installed, calico_manifest, workload_rest_config, apply_documents, apply_document,
}
use dbaas.Controller.Workload.Calico.{
  applied, Installs, HandedOut, ensure_calico_installed-Installs,
}
use dbaas.Tests.Fixtures.{packages, meta_of, kubeconfig}

abbrev document : Text → Document
document name = record {
  is_empty = false;
  group_version_kind = codes "apps/v1, Kind=DaemonSet";
  kind = codes "DaemonSet";
  namespace = codes "kube-system";
  name = name;
  body = ok name;
}

-- A manifest with an empty document between two others.
abbrev calico_packages : Packages
calico_packages = record packages {
  decode = λ t.
      ok (document (codes "a"))
      ∷ ok (record (document []) { is_empty = true })
      ∷ ok (document (codes "b"))
      ∷ [];
}

abbrev answers : Oracle
answers older (get_call secret key) = ok kubeconfig
answers older (get_call config_map key) =
    ok (record { meta = meta_of [] []; value = (codes "calico.yaml", codes "x") ∷ [] })
answers older (mapping_call e kind) =
    ok (record { resource = codes "daemonsets"; namespaced = true })
answers older (apply_call a) = ok tt
answers older _ = err (failure [])

abbrev reachable : RestConfig → Result (Unit {0})
reachable cfg = ok tt

abbrev install : Result (Unit {0}) × List Call
install =
    ensure_calico_installed calico_packages (traced reachable answers) (codes "id") (codes "k") []

install_lem : install.0 ≡ ok tt
unfolding ensure_calico_installed ◌>>=◌ calico_manifest ◌==◌ lookup Dict.read workload_rest_config
    apply_documents apply_document
install_lem = refl

ensure_calico_installed-Installs_example :
    (manifest : Text) × (cfg : RestConfig) × HandedOut calico_packages reachable answers
      (codes "id")
      (codes "k")
      manifest
      cfg
    × Installs calico_packages reachable answers cfg
        (calico_packages.decode manifest)
        (applied install.1)
ensure_calico_installed-Installs_example =
    ensure_calico_installed-Installs calico_packages reachable answers (codes "id") (codes "k")
      install_lem
