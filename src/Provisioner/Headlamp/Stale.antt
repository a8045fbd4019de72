-- ===== src/Provisioner/Headlamp/Stale.antt =====
-- The entries that `removeStaleHeadlampEntries` leaves, in whatever order Go visits the map.
use dbaas.Prelude.{
  Bool, false, not, ◌&&◌, ◌||◌, List, [], ◌∷◌, Option, none, if◌then◌else◌, ◌≡◌, refl, arith,
}
use dbaas.Prelude.Text.{Text, ◌==◌, eq_iff}
use dbaas.Prelude.Dict.{Dict, lookup, lookup-erase}
use dbaas.Cluster.{Workspace}
use dbaas.Provisioner.Env.{Provisioner}
use dbaas.Provisioner.Kubeconfig.{Config, ClusterEntry}
use dbaas.Provisioner.Headlamp.{
  MapOrder, has_key, delete_entries, is_stale, remove_entry, remove_entries,
  remove_stale_headlamp_entries,
}

abbrev pub is_listed : Text → List Text → Bool
is_listed name [] = false
is_listed name (n ∷ names) = name == n || is_listed name names

-- `range` visits every key of a map, and no other.
pub record MapOrderLaws (O : MapOrder) : Type 0 where
  pub all_clusters :
      (m : Dict ClusterEntry) (name : Text) → is_listed name (O.of_clusters m) ≡ has_key name m
  pub all_workspaces :
      (m : Dict Workspace) (name : Text) → is_listed name (O.of_workspaces m) ≡ has_key name m

-- The three entries of a name.
pub record Entries : Type 0 where
  pub cluster : Option ClusterEntry
  pub auth_info : Option dbaas.Provisioner.Env.AuthInfo
  pub context : Option dbaas.Provisioner.Kubeconfig.Context

abbrev pub entries : Text → Config → Entries
entries name cfg = record {
  cluster = lookup name cfg.clusters;
  auth_info = lookup name cfg.auth_infos;
  context = lookup name cfg.contexts;
}

abbrev pub no_entries : Entries
no_entries = record { cluster = none; auth_info = none; context = none }

entries-delete_entries :
    (name other : Text) (cfg : Config)
    → entries name (delete_entries other cfg)
      ≡ (if name == other then no_entries else entries name cfg)
unfolding delete_entries
entries-delete_entries name other cfg = ground (
  arith,
  lookup-erase other name cfg.clusters,
  lookup-erase other name cfg.auth_infos,
  lookup-erase other name cfg.contexts,
)

module _ (P : Provisioner) (desired : Dict Workspace) where
  is_stale-delete_entries :
      (name other : Text) (cfg : Config)
      → is_stale P desired name (delete_entries other cfg)
        ≡ (if name == other then false else is_stale P desired name cfg)
  unfolding is_stale delete_entries
  is_stale-delete_entries name other cfg =
      rw (is_stale, lookup-erase other name cfg.clusters) (ground arith)

  entries-remove_entry :
      (name other : Text) (cfg : Config)
      → entries name (remove_entry P desired other cfg)
        ≡ (if name == other && is_stale P desired name cfg then no_entries else entries name cfg)
  unfolding remove_entry
  entries-remove_entry name other cfg =
      ground (arith, entries-delete_entries name other cfg, eq_iff name other)

  is_stale-remove_entry :
      (name other : Text) (cfg : Config)
      → is_stale P desired name (remove_entry P desired other cfg)
        ≡ (not (name == other) && is_stale P desired name cfg)
  unfolding remove_entry
  is_stale-remove_entry name other cfg =
      ground (arith, is_stale-delete_entries name other cfg, eq_iff name other)

  entries-remove_entries :
      (names : List Text) (name : Text) (cfg : Config)
      → entries name (remove_entries P desired names cfg) ≡ (
          if is_listed name names && is_stale P desired name cfg
          then no_entries
          else entries name cfg)
  unfolding remove_entries
  entries-remove_entries [] name cfg = refl
  entries-remove_entries (n ∷ names) name cfg = ground (
    arith,
    entries-remove_entries names name (remove_entry P desired n cfg),
    entries-remove_entry name n cfg,
    is_stale-remove_entry name n cfg,
    eq_iff name n,
  )

  is_stale-has_key :
      (name : Text) (cfg : Config)
      → (has_key name cfg.clusters && is_stale P desired name cfg) ≡ is_stale P desired name cfg
  unfolding is_stale has_key
  is_stale-has_key name cfg = ground arith

  -- In whatever order Go visits the keys of a map (`MapOrderLaws`), `removeStaleHeadlampEntries`
  -- takes away the three entries of a name if its cluster is managed by the provisioner and its
  -- workspace is not desired, and leaves the entries of every other name as they were.
  pub entries-remove_stale_headlamp_entries :
      (O : MapOrder) (L : MapOrderLaws O) (name : Text) (cfg : Config)
      → entries name (remove_stale_headlamp_entries P O desired cfg)
        ≡ (if is_stale P desired name cfg then no_entries else entries name cfg)
  unfolding remove_stale_headlamp_entries
  entries-remove_stale_headlamp_entries O L name cfg = ground (
    arith,
    entries-remove_entries (O.of_clusters cfg.clusters) name cfg,
    L.all_clusters cfg.clusters name,
    is_stale-has_key name cfg,
  )
