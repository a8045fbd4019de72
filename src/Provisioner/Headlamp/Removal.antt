-- ===== src/Provisioner/Headlamp/Removal.antt =====
-- The entries of a workspace that `syncHeadlamp` is to remove.
use dbaas.Prelude.{true, false, List, [], ◌∷◌, none, some, ◌≡◌, ◌∙◌, refl, arith, ℕ}
use dbaas.Prelude.Text.{Text, codes, eq_refl}
use dbaas.Prelude.Dict
use dbaas.Prelude.Dict.{Dict, lookup, erase, lookup-erase}
use mathlib.Core.Path.{subst}
use dbaas.Exec.{Result, ok, pure}
use dbaas.Url.{UrlPackage}
use dbaas.Cluster.{Server, Workspace, Secret, secret}
use dbaas.Cluster.Lawful.{IsLawful}
use dbaas.Provisioner.Env.{Provisioner}
use dbaas.Provisioner.Kubeconfig.{Config}
use dbaas.Provisioner.Workspaces.{list_consumer_workspaces}
use dbaas.Provisioner.Headlamp.{
  MapOrder, has_key, collect, is_stale, headlamp_key, loaded, select, with_config, sync_steps,
}
use dbaas.Provisioner.Headlamp.Stale.{entries, MapOrderLaws}
use dbaas.Provisioner.Headlamp.Fill.{Visited}
use dbaas.Provisioner.Headlamp.Sync.{is_live, has_key-collect, remaining, sync_steps-Shows}

live_not_stale :
    (P : Provisioner) (desired : Dict Workspace) (name : Text) (cfg : Config)
    → has_key name desired ≡ true
    → is_stale P desired name cfg ≡ false
unfolding is_stale
live_not_stale P desired name cfg live = ground arith

module _ (load : Text → Result Config) (write : Config → Result Text) (U : UrlPackage) {W : Type 0}
    (S : Server W) (L : IsLawful S) (P : Provisioner) (O : MapOrder) (OL : MapOrderLaws O)
    (now : Text) (c : ℕ) (rest : Text) (s : Secret) (ws : List Workspace) (w : W)
    (secret_read : (S.get secret (headlamp_key P) w).0 ≡ ok s)
    (list_read : (list_consumer_workspaces U S P (S.get secret (headlamp_key P) w).1).0 ≡ ok ws)
    (live : is_live (c ∷ rest) ws ≡ true) where
  abbrev old : Config
  old = loaded load write (Dict.read (codes "config") s.value)

  deselected :
      (select load write U S P O
        (c ∷ rest)
        false
        (collect ws [])
        (list_consumer_workspaces U S P (S.get secret (headlamp_key P) w).1).1).0
      ≡ ok (erase (c ∷ rest) (collect ws []))
  unfolding select pure
  deselected = refl

  remaining_live :
      remaining load write U S L P O OL (collect ws []) (c ∷ rest) old ≡ entries (c ∷ rest) old
  remaining_live =
      rw (live_not_stale P (collect ws []) (c ∷ rest) old (has_key-collect ws (c ∷ rest) ∙ live))
        refl

  erased : lookup (c ∷ rest) (erase (c ∷ rest) (collect ws [])) ≡ none
  erased = rw (lookup-erase (c ∷ rest) (c ∷ rest) (collect ws []), eq_refl (c ∷ rest)) refl

  -- Over servers that are lawful (`IsLawful`) and any order in which Go visits the keys of a map
  -- (`MapOrderLaws`). Let the secret be read and the workspaces be listed, with a workspace among
  -- them that is not being deleted. If `syncHeadlamp` is to remove that workspace and gets to its
  -- end, the config that it writes still has the workspace's old entries.
  pub sync_steps_keeps_listed :
      (sync_steps load write U S P O now (c ∷ rest) false w).0 ≡ ok tt
      → (cfg : Config) × (text : Text) × (write cfg ≡ ok text)
        × (L.find secret (headlamp_key P) (sync_steps load write U S P O now (c ∷ rest) false w).1
            ≡ some (with_config load write U S P O text s))
        × (entries (c ∷ rest) cfg ≡ entries (c ∷ rest) old)
  sync_steps_keeps_listed done =
      let (cfg, (text, wrote, held), visited) =
        sync_steps-Shows load write U S L P O OL now (c ∷ rest) false s ws
          (erase (c ∷ rest) (collect ws [])) w secret_read list_read deselected done in
      (
        cfg,
        text,
        wrote,
        held,
        subst
              (λ o.
                Visited U S P (c ∷ rest) o
                  (remaining load write U S L P O OL (collect ws []) (c ∷ rest) old)
                  (entries (c ∷ rest) cfg))
              erased (visited (c ∷ rest))
            ∙ remaining_live,
      )
