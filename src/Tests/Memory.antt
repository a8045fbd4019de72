-- ===== src/Tests/Memory.antt =====
-- API servers that keep their objects in memory.
use dbaas.Prelude.{
  Bool, false, ◌≡◌, ◌≢◌, ◌⊎◌, ◌∙◌, refl, Option, none, some, List, [], true, inl, inr,
}
use dbaas.Exec.{Error, not_found, already_exists, Result, ok, err, Exec}
use dbaas.Cluster.{
  Endpoint, management, remote, Kind, Object, Key, Key-discrete, Server, kubernetes, capi_cluster,
  secret, config_map, workspace, logical_cluster, api_binding, name_space, service_account,
  cluster_role_binding, database, node, mongodb,
}
use dbaas.Cluster.Lawful.{IsLawful, IsDeleted, Apart}

abbrev pub Memory : Type 0
Memory = (k : Kind) → Key → Option (Object k)

unfoldable pub pick : {P A : Type 0} → Dec P → A → A → A
pick (yes _) new old = new
pick (no _) new old = old

pick_new : {P A : Type 0} (d : Dec P) (new old : A) → P → pick d new old ≡ new
unfolding pick
pick_new (yes _) new old p = refl
pick_new (no n) new old p = absurd (n p)

pick_old :
    {P A : Type 0} {k : Kind} (d : Dec P) (new old : A) → (k ≢ k) ⊎ ¬ P → pick d new old ≡ old
unfolding pick
pick_old d new old (inl h) = absurd (h refl)
pick_old (yes p) new old (inr h) = absurd (h p)
pick_old (no _) new old (inr h) = refl

module _ {P : Type 0} (d : Dec P) where
  -- The new object, if the kinds and the keys agree.
  unfoldable pub replace :
      (k k' : Kind) → Option (Object k) → Option (Object k') → Option (Object k')
  replace kubernetes kubernetes new old = pick d new old
  replace capi_cluster capi_cluster new old = pick d new old
  replace secret secret new old = pick d new old
  replace config_map config_map new old = pick d new old
  replace workspace workspace new old = pick d new old
  replace logical_cluster logical_cluster new old = pick d new old
  replace api_binding api_binding new old = pick d new old
  replace name_space name_space new old = pick d new old
  replace service_account service_account new old = pick d new old
  replace cluster_role_binding cluster_role_binding new old = pick d new old
  replace database database new old = pick d new old
  replace node node new old = pick d new old
  replace mongodb mongodb new old = pick d new old
  replace _ _ new old = old

  replace-same : (k : Kind) (new old : Option (Object k)) → replace k k new old ≡ pick d new old
  unfolding replace
  replace-same kubernetes new old = refl
  replace-same capi_cluster new old = refl
  replace-same secret new old = refl
  replace-same config_map new old = refl
  replace-same workspace new old = refl
  replace-same logical_cluster new old = refl
  replace-same api_binding new old = refl
  replace-same name_space new old = refl
  replace-same service_account new old = refl
  replace-same cluster_role_binding new old = refl
  replace-same database new old = refl
  replace-same node new old = refl
  replace-same mongodb new old = refl

  replace_apart :
      (k k' : Kind) (new : Option (Object k)) (old : Option (Object k'))
      → (k ≢ k') ⊎ ¬ P
      → replace k k' new old ≡ old
  unfolding replace
  replace_apart kubernetes kubernetes new old h = pick_old d new old h
  replace_apart capi_cluster capi_cluster new old h = pick_old d new old h
  replace_apart secret secret new old h = pick_old d new old h
  replace_apart config_map config_map new old h = pick_old d new old h
  replace_apart workspace workspace new old h = pick_old d new old h
  replace_apart logical_cluster logical_cluster new old h = pick_old d new old h
  replace_apart api_binding api_binding new old h = pick_old d new old h
  replace_apart name_space name_space new old h = pick_old d new old h
  replace_apart service_account service_account new old h = pick_old d new old h
  replace_apart cluster_role_binding cluster_role_binding new old h = pick_old d new old h
  replace_apart database database new old h = pick_old d new old h
  replace_apart node node new old h = pick_old d new old h
  replace_apart mongodb mongodb new old h = pick_old d new old h
  replace_apart _ _ new old h = refl

unfoldable pub put : (k : Kind) → Key → Option (Object k) → Memory → Memory
put k key new w k' key' = replace (Key-discrete key key') k k' new (w k' key')

pub put-same :
    (k : Kind) (key : Key) (new : Option (Object k)) (w : Memory) → put k key new w k key ≡ new
unfolding put
put-same k key new w =
    replace-same (Key-discrete key key) k new (w k key)
    ∙ pick_new (Key-discrete key key) new (w k key) refl

put-Apart :
    (k : Kind) (key : Key) (new : Option (Object k)) (w : Memory) (k' : Kind) (key' : Key)
    → Apart k key k' key'
    → put k key new w k' key' ≡ w k' key'
unfolding put
put-Apart k key new w k' key' far = replace_apart (Key-discrete key key') k k' new (w k' key') far

unfoldable pub found : {A : Type 0} → Option A → Result A
found (some o) = ok o
found none = err (not_found [])

module _ (k : Kind) (key : Key) (new : Option (Object k)) where
  -- A write that wants the object to be there, or to be missing.
  unfoldable pub write_present : Option (Object k) → Exec Memory (Unit {0})
  write_present (some _) w = (ok tt, put k key new w)
  write_present none w = (err (not_found []), w)

  unfoldable pub write_missing : Option (Object k) → Exec Memory (Unit {0})
  write_missing none w = (ok tt, put k key new w)
  write_missing (some _) w = (err (already_exists []), w)

-- The lists are fixed, and manifests are applied elsewhere.
abbrev pub memory_server : ((k : Kind) → List (Object k)) → Server Memory
memory_server listed = record {
  new_client = λ cfg. ok tt;
  get = λ k key w. (found (w k key), w);
  list = λ k e ns selector w. (ok (listed k), w);
  create = λ k key o w. write_missing k key (some o) (w k key) w;
  update = λ k key o w. write_present k key (some o) (w k key) w;
  patch = λ k key o o' w. write_present k key (some o') (w k key) w;
  patch_status = λ k key o o' w. write_present k key (some o') (w k key) w;
  delete = λ k key w. write_present k key none (w k key) w;
  patch_deployment = λ key body w. (ok tt, w);
  rest_mapping = λ e kind w. (ok (record { resource = kind; namespaced = true }), w);
  apply = λ a w. (ok tt, w);
}

module _ (k : Kind) (key : Key) (w : Memory) where
  found_ok : (r : Option (Object k)) (o : Object k) → found r ≡ ok o → r ≡ some o
  unfolding found
  found_ok (some x) o e = cc
  found_ok none o e = cc

  found_err : (r : Option (Object k)) (e : Error) → found r ≡ err e → r ≡ none
  unfolding found
  found_err (some x) e h = cc
  found_err none e h = refl

  module _ (new : Option (Object k)) where
    missing_ok :
        (r : Option (Object k))
        → (write_missing k key new r w).0 ≡ ok tt
        → (write_missing k key new r w).1 k key ≡ new
    unfolding write_missing
    missing_ok none h = put-same k key new w
    missing_ok (some _) h = cc

    missing_err :
        (r : Option (Object k)) (e : Error) → (write_missing k key new r w).0 ≡ err e → r ≢ none
    unfolding write_missing
    missing_err none e h = cc
    missing_err (some _) e h = λ q. cc

    missing_existing :
        (r : Option (Object k)) (o' : Object k)
        → w k key ≡ r
        → r ≡ some o'
        → (write_missing k key new r w).1 k key ≡ some o'
    unfolding write_missing
    missing_existing none o' q h = cc
    missing_existing (some _) o' q h = q ∙ h

    missing_any :
        (r : Option (Object k))
        → ((write_missing k key new r w).1 k key ≡ w k key)
          ⊎ ((write_missing k key new r w).1 k key ≡ new)
    unfolding write_missing
    missing_any none = inr (put-same k key new w)
    missing_any (some _) = inl refl

    missing-Apart :
        (r : Option (Object k)) (k' : Kind) (key' : Key)
        → Apart k key k' key'
        → (write_missing k key new r w).1 k' key' ≡ w k' key'
    unfolding write_missing
    missing-Apart none k' key' far = put-Apart k key new w k' key' far
    missing-Apart (some _) k' key' far = refl

    present_ok :
        (r : Option (Object k))
        → (write_present k key new r w).0 ≡ ok tt
        → (write_present k key new r w).1 k key ≡ new
    unfolding write_present
    present_ok none h = cc
    present_ok (some _) h = put-same k key new w

    present_err :
        (r : Option (Object k)) (e : Error)
        → w k key ≡ r
        → (write_present k key new r w).0 ≡ err e
        → (write_present k key new r w).1 k key ≡ none
    unfolding write_present
    present_err none e q h = q
    present_err (some _) e q h = cc

    present_any :
        (r : Option (Object k))
        → ((write_present k key new r w).1 k key ≡ w k key)
          ⊎ ((write_present k key new r w).1 k key ≡ new)
    unfolding write_present
    present_any none = inl refl
    present_any (some _) = inr (put-same k key new w)

    present-Apart :
        (r : Option (Object k)) (k' : Kind) (key' : Key)
        → Apart k key k' key'
        → (write_present k key new r w).1 k' key' ≡ w k' key'
    unfolding write_present
    present-Apart none k' key' far = refl
    present-Apart (some _) k' key' far = put-Apart k key new w k' key' far

-- Every workspace may have every endpoint in it.
abbrev taken_with : Key → Endpoint → Bool
taken_with key management = false
taken_with key (remote cfg) = true

pub memory_lawful : (listed : (k : Kind) → List (Object k)) → IsLawful (memory_server listed)
memory_lawful listed = record {
  contains = taken_with;
  contains_management = λ key. refl;
  find = λ k key w. w k key;
  get_ok = λ k key w o h. found_ok k key w (w k key) o h;
  get_not_found = λ k key w e h n. found_err k key w (w k key) e h;
  find-get = λ k key w k' key'. refl;
  find-list = λ k e ns selector w k' key'. refl;
  create_ok = λ k key o w h. missing_ok k key w (some o) (w k key) h;
  create_already_exists = λ k key o w e h n. missing_err k key w (some o) (w k key) e h;
  create_existing = λ k key o o' w h. missing_existing k key w (some o) (w k key) o' refl h;
  create_any = λ k key o w. missing_any k key w (some o) (w k key);
  find-create = λ k key o w k' key' far. missing-Apart k key w (some o) (w k key) k' key' far;
  update_ok = λ k key o w lasts h. present_ok k key w (some o) (w k key) h;
  update_any = λ k key o w lasts. present_any k key w (some o) (w k key);
  find-update = λ k key o w k' key' far. present-Apart k key w (some o) (w k key) k' key' far;
  delete_ok = λ k key w h. IsDeleted.absent (present_ok k key w none (w k key) h);
  delete_not_found = λ k key w e h n. present_err k key w none (w k key) e refl h;
  find-delete = λ k key w k' key' far outside. present-Apart k key w none (w k key) k' key' far;
  patch_ok = λ k key o o' w q h. present_ok k key w (some o') (w k key) h;
  find-patch = λ k key o o' w k' key' far. present-Apart k key w (some o') (w k key) k' key' far;
  patch_mongodb_status_ok = λ key o status w q h.
      present_ok mongodb key w (some (record o { status = status })) (w mongodb key) h;
  find-patch_status =
      λ k key o o' w k' key' far. present-Apart k key w (some o') (w k key) k' key' far;
  find-patch_deployment = λ key body w k' key'. refl;
  find-rest_mapping = λ e kind w k' key'. refl;
  find-apply = λ a w k' key' far. refl;
}

pub find_lem :
    (listed : (k : Kind) → List (Object k)) (k : Kind) (key : Key) (w : Memory)
    → (memory_lawful listed).find k key w ≡ w k key
unfolding memory_lawful
find_lem listed k key w = refl
