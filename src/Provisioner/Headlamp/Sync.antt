-- ===== src/Provisioner/Headlamp/Sync.antt =====
-- What `syncHeadlamp` leaves in the secret of Headlamp.
use dbaas.Prelude.{
  inl, Bool, true, false, ◌||◌, List, [], ◌∷◌, Option, none, some, if◌then◌else◌, ◌≡◌, ◌∙◌, refl,
  arith, not, ◌&&◌,
}
use mathlib.Core.Path.{subst}
use dbaas.Prelude.Text.{Text, ◌==◌, codes}
use dbaas.Prelude.Dict
use dbaas.Prelude.Dict.{Dict, lookup, insert, erase, lookup-insert, lookup-erase}
use dbaas.Exec.{Result, ok, ◌>>=◌, lift, or_wrap, ◌>>◌}
use dbaas.Exec.Ensures.{Ensures, Ensures-bind, Ensures-all, Ensures-or_wrap, Ensures-lift}
use dbaas.Url.{UrlPackage}
use dbaas.Cluster.{Server, Workspace, Secret, secret}
use dbaas.Cluster.Lawful.{IsLawful}
use dbaas.Provisioner.Env.{Provisioner}
use dbaas.Provisioner.Kubeconfig.{Config}
use dbaas.Provisioner.Workspaces.{list_consumer_workspaces}
use dbaas.Provisioner.Headlamp.{
  MapOrder, has_key, collect, is_stale, remove_stale_headlamp_entries, headlamp_key, deployment_key,
  restart_patch, loaded, fill, select, with_config, write_entries, sync_steps,
}
use dbaas.Provisioner.Headlamp.Stale.{
  Entries, entries, no_entries, is_listed, MapOrderLaws, entries-remove_stale_headlamp_entries,
}
use dbaas.Provisioner.Headlamp.Fill.{Visited, Filled, fill-Filled}

-- Whether a workspace of the list has the name and is not being deleted.
unfoldable pub is_live : Text → List Workspace → Bool
is_live name [] = false
is_live name (w ∷ ws) = name == w.meta.name && not w.meta.deleting || is_live name ws

has_key-insert :
    {V : Type 0} (name key : Text) (v : V) (m : Dict V)
    → has_key name (insert key v m) ≡ (name == key || has_key name m)
unfolding has_key
has_key-insert name key v m = rw (has_key, lookup-insert key name v m) (ground arith)

has_key-collect_from :
    (ws : List Workspace) (m : Dict Workspace) (name : Text)
    → has_key name (collect ws m) ≡ (is_live name ws || has_key name m)
unfolding collect is_live
has_key-collect_from [] m name = refl
has_key-collect_from (w ∷ ws) m name = ground (
  arith,
  has_key-collect_from ws m name,
  has_key-collect_from ws (insert w.meta.name w m) name,
  has_key-insert name w.meta.name w m,
)

-- A name is desired exactly if a listed workspace has it that is not being deleted.
pub has_key-collect :
    (ws : List Workspace) (name : Text) → has_key name (collect ws []) ≡ is_live name ws
unfolding has_key lookup
has_key-collect ws name = ground (arith, has_key-collect_from ws [] name)

Filled→Visited :
    (U : UrlPackage) {W : Type 0} (S : Server W) (P : Provisioner) (name : Text)
    (desired : Dict Workspace) (old new : Entries)
    → Filled U S P name (lookup name desired) (has_key name desired) old new
    → Visited U S P name (lookup name desired) old new
unfolding has_key
Filled→Visited U S P name desired old new = go (lookup name desired)
  where
    go :
        (o : Option Workspace)
        → Filled U S P name o (elim o [ some v ↦ true | none ↦ false ]) old new
        → Visited U S P name o old new
    go none f = f
    go (some ws) f = f

module _ (load : Text → Result Config) (write : Config → Result Text) (U : UrlPackage) {W : Type 0}
    (S : Server W) (L : IsLawful S) (P : Provisioner) (O : MapOrder) (OL : MapOrderLaws O) where
  -- The secret holds a config, and has else its old values.
  abbrev Written : Secret → Config → W → Type 0
  Written s cfg w =
      (text : Text) × (write cfg ≡ ok text)
      × (L.find secret (headlamp_key P) w ≡ some (with_config load write U S P O text s))

  -- The entries before the loop that writes.
  abbrev pub remaining : Dict Workspace → Text → Config → Entries
  remaining listed name cfg = if is_stale P listed name cfg then no_entries else entries name cfg

  -- The secret holds a config that has been brought in line with the workspaces: stale entries are
  -- gone, and each desired workspace has been visited.
  abbrev pub Shows : Secret → Dict Workspace → Dict Workspace → W → Type 0
  Shows s listed desired w =
      (cfg : Config) × Written s cfg w
      × ((name : Text)
          → Visited U S P name (lookup name desired)
              (remaining listed name (loaded load write (Dict.read (codes "config") s.value)))
              (entries name cfg))

  write_steps :
      {Q : W → Type 0} (now : Text) (s : Secret) (cfg : Config)
      → Ensures Q
          (do
            text ← or_wrap "headlamp sync: marshal kubeconfig" [] (lift (write cfg))
            or_wrap "headlamp sync: update secret" []
                (S.update secret (headlamp_key P) (with_config load write U S P O text s))
            or_wrap "headlamp sync: restart deployment" []
                (S.patch_deployment (deployment_key P) (restart_patch now)))
          (λ _. Written s cfg)
  write_steps now s cfg =
      Ensures-bind _ _ (Ensures-or_wrap _ _ _ (Ensures-lift (write cfg))) (λ text.
        Ensures-bind {R = λ _. Written s cfg} _ _
          (Ensures-or_wrap _ _ _ (record {
            at = λ w h a e. (
              text,
              h.0,
              L.update_ok secret (headlamp_key P) (with_config load write U S P O text s) w
                  (inl (ground arith)) e,
            );
          }))
          (λ _. Ensures-or_wrap _ _ _ (record {
            at = λ w h a e. (
              h.0,
              h.1,
              L.find-patch_deployment (deployment_key P) (restart_patch now) w secret
                    (headlamp_key P)
                  ∙ h.2,
            );
          })))

  fill-Visited :
      {Q : W → Type 0} (listed desired : Dict Workspace) (cfg : Config)
      → Ensures Q
          (fill load write U S P O desired
            (O.of_workspaces desired)
            (remove_stale_headlamp_entries P O listed cfg))
          (λ next _.
            (name : Text)
            → Visited U S P name
                (lookup name desired)
                (remaining listed name cfg)
                (entries name next))
  fill-Visited {Q} listed desired cfg = Ensures-all (λ (name : Text). record {
    at = λ w h next e.
        Filled→Visited U S P name desired (remaining listed name cfg) (entries name next) (
          subst
            (λ b.
              Filled U S P name (lookup name desired) b (remaining listed name cfg)
                (entries name next))
            (OL.all_workspaces desired name)
            (subst
              (λ old.
                Filled U S P name (lookup name desired) (is_listed name (O.of_workspaces desired))
                  old (entries name next))
              (entries-remove_stale_headlamp_entries P listed O OL name cfg)
              ((fill-Filled load write U S P O {Q = Q} desired (O.of_workspaces desired) name
                  (remove_stale_headlamp_entries P O listed cfg)).at
                w h next e)));
  })

  write_entries-Shows :
      {Q : W → Type 0} (now : Text) (s : Secret) (listed desired : Dict Workspace)
      → Ensures Q
          (write_entries load write U S P O now s desired (
            remove_stale_headlamp_entries P O listed
              (loaded load write (Dict.read (codes "config") s.value))))
          (λ _. Shows s listed desired)
  unfolding write_entries
  write_entries-Shows now s listed desired =
      Ensures-bind _ _
        (fill-Visited listed desired (loaded load write (Dict.read (codes "config") s.value)))
        (λ next. record {
          at = λ w v a e. (next, (write_steps {Q = λ _. Unit {0}} now s next).at w tt a e, v);
        })

  module _ (now name : Text) (add : Bool) (s : Secret) (ws : List Workspace)
      (desired : Dict Workspace) (w : W) (secret_read : (S.get secret (headlamp_key P) w).0 ≡ ok s)
      (list_read : (list_consumer_workspaces U S P (S.get secret (headlamp_key P) w).1).0 ≡ ok ws)
      (selected : (select load write U S P O name add
          (collect ws [])
          (list_consumer_workspaces U S P (S.get secret (headlamp_key P) w).1).1).0
        ≡ ok desired) where
    abbrev selected_world : W
    selected_world =
        (select load write U S P O name add (collect ws [])
          (list_consumer_workspaces U S P (S.get secret (headlamp_key P) w).1).1).1

    sync_steps_lem :
        sync_steps load write U S P O now name add w
        ≡ write_entries load write U S P O now s desired
            (remove_stale_headlamp_entries P O
              (collect ws [])
              (loaded load write (Dict.read (codes "config") s.value)))
            selected_world
    unfolding sync_steps ◌>>=◌
    sync_steps_lem = rw (secret_read, list_read, selected) refl

    -- Over servers that are lawful (`IsLawful`) and any order in which Go visits the keys of a map
    -- (`MapOrderLaws`). Let the secret be read, the workspaces be listed, and the desired ones be
    -- selected. If `syncHeadlamp` gets to its end, the secret holds a config in which the entries
    -- of every name are as `Visited` says: those of a desired workspace are at its address on the
    -- front proxy, with the admin's credentials or, where it has scoped ones, with a token that
    -- was the answer to a read of its own, or they are left as they were where such a read fails;
    -- those of any other name are left as they were, but stale ones are gone.
    pub sync_steps-Shows :
        (sync_steps load write U S P O now name add w).0 ≡ ok tt
        → Shows s (collect ws []) desired (sync_steps load write U S P O now name add w).1
    sync_steps-Shows done = rw sync_steps_lem (
        (write_entries-Shows {Q = λ _. Unit {0}} now s (collect ws []) desired).at selected_world tt
          tt (rw sync_steps_lem at done))
