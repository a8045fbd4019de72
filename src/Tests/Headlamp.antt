-- ===== src/Tests/Headlamp.antt =====
-- The kubeconfig of Headlamp.
use dbaas.Prelude.{◌≡◌, refl, true, false, List, [], ◌∷◌, some, arith}
use dbaas.Prelude.Text.{Text, codes, ◌==◌, contains}
use dbaas.Prelude.Dict
use dbaas.Prelude.Dict.{Dict, lookup, erase, insert}
use dbaas.Exec.{Result, ok, pure, ◌>>=◌}
use dbaas.Cluster.{secret}
use dbaas.Provisioner.Kubeconfig.{Config, ClusterEntry}
use dbaas.Provisioner.Workspaces.{list_consumer_workspaces, consumers_client}
use dbaas.Provisioner.Credentials.{workspace_credential_mode}
use dbaas.Provisioner.Env.{client_for_workspace}
use dbaas.Provisioner.Headlamp.{
  MapOrder, has_key, new_config, collect, select, headlamp_key, sync_steps, loaded, with_config,
  write_entries, fill, fill_found, fill_entry, is_stale, remove_stale_headlamp_entries,
}
use dbaas.Provisioner.Headlamp.Stale.{
  MapOrderLaws, is_listed, entries, no_entries, entries-remove_stale_headlamp_entries,
}
use dbaas.Provisioner.Headlamp.Sync.{is_live, Shows, sync_steps-Shows}
use dbaas.Provisioner.Headlamp.Removal.{sync_steps_keeps_listed}
use dbaas.Tests.Memory.{found, write_present}
use dbaas.Tests.Fixtures.{
  urls, provisioner, consumers, server, lawful, tenant_workspace, kubeconfig,
}

-- The keys, in the order of the list.
unfoldable pub keys : {V : Type 0} → Dict V → List Text
keys [] = []
keys ((k, v) ∷ m) = k ∷ keys m

is_listed-keys : {V : Type 0} (m : Dict V) (name : Text) → is_listed name (keys m) ≡ has_key name m
unfolding keys has_key lookup
is_listed-keys [] name = refl
is_listed-keys ((k, v) ∷ m) name = ground (arith, is_listed-keys m name)

abbrev pub in_order : MapOrder
in_order = record { of_clusters = λ m. keys m; of_workspaces = λ m. keys m }

in_order_laws : MapOrderLaws in_order
in_order_laws = record {
  all_clusters = λ m name. is_listed-keys m name;
  all_workspaces = λ m name. is_listed-keys m name;
}

abbrev old_entry : ClusterEntry
old_entry = record {
  server = codes "https://kcp/clusters/root:c:gone";
  insecure_skip_tls_verify = false;
  certificate_authority_data = [];
}

abbrev old_config : Config
old_config = record new_config { clusters = (codes "gone", old_entry) ∷ [] }

abbrev pub load : Text → Result Config
load raw = ok old_config

abbrev write : Config → Result Text
write cfg = ok (codes "written")

entries-remove_stale_headlamp_entries_example :
    entries (codes "gone") (remove_stale_headlamp_entries provisioner in_order [] old_config)
    ≡ no_entries
unfolding is_stale lookup ◌==◌ contains
entries-remove_stale_headlamp_entries_example =
    entries-remove_stale_headlamp_entries provisioner [] in_order in_order_laws (codes "gone")
      old_config

list_lem :
    (list_consumer_workspaces urls server provisioner consumers).0 ≡ ok (tenant_workspace ∷ [])
unfolding list_consumer_workspaces consumers_client client_for_workspace ◌>>=◌
list_lem = refl

secret_lem : (server.get secret (headlamp_key provisioner) consumers).0 ≡ ok kubeconfig
unfolding found
secret_lem = refl

sync_lem :
    (sync_steps load write urls server provisioner in_order (codes "now") [] false consumers).0
    ≡ ok tt
unfolding sync_steps ◌>>=◌ found list_consumer_workspaces consumers_client client_for_workspace
    select write_entries fill keys collect write_present insert fill_found lookup ◌==◌ fill_entry
    workspace_credential_mode Dict.read
sync_lem = refl

sync_steps-Shows_example :
    Shows load write urls server lawful provisioner in_order in_order_laws kubeconfig
      (collect (tenant_workspace ∷ []) [])
      (collect (tenant_workspace ∷ []) [])
      (sync_steps load write urls server provisioner in_order (codes "now") [] false consumers).1
unfolding select pure
sync_steps-Shows_example =
    sync_steps-Shows load write urls server lawful provisioner in_order in_order_laws (codes "now")
      [] false kubeconfig (tenant_workspace ∷ []) (collect (tenant_workspace ∷ []) []) consumers
      secret_lem list_lem refl sync_lem

removal_lem :
    (sync_steps load write urls server provisioner in_order
      (codes "now")
      (codes "w")
      false
      consumers).0
    ≡ ok tt
unfolding sync_steps ◌>>=◌ found list_consumer_workspaces consumers_client client_for_workspace
    select write_entries fill keys collect write_present insert erase ◌==◌ Dict.read lookup
removal_lem = refl

live_lem : is_live (codes "w") (tenant_workspace ∷ []) ≡ true
unfolding is_live ◌==◌
live_lem = refl

sync_steps_keeps_listed_example :
    (cfg : Config) × (text : Text) × (write cfg ≡ ok text)
    × (lawful.find secret
          (headlamp_key provisioner)
          (sync_steps load write urls server provisioner in_order
            (codes "now")
            (codes "w")
            false
            consumers).1
        ≡ some (with_config load write urls server provisioner in_order text kubeconfig))
    × (entries (codes "w") cfg
        ≡ entries (codes "w") (loaded load write (Dict.read (codes "config") kubeconfig.value)))
sync_steps_keeps_listed_example =
    sync_steps_keeps_listed load write urls server lawful provisioner in_order in_order_laws
      (codes "now") 119 [] kubeconfig (tenant_workspace ∷ []) consumers secret_lem list_lem live_lem
      removal_lem
