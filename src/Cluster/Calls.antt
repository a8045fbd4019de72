-- ===== src/Cluster/Calls.antt =====
-- Requests as values: what a run of the program asks the servers for, one request after another.
use package.dbaas.Prelude.{List, [], ◌∷◌}
use package.dbaas.Prelude.Text.{Text}
use package.dbaas.Exec.{Result, Exec}
use package.dbaas.Cluster.Objects.{Kind, Object}
use package.dbaas.Cluster.Requests.{Server, Key, Endpoint, RestConfig, Mapping, Apply}
use dbaas.Prelude.{◌++◌}

pub data Call : Type 0 where
  get_call : Kind → Key → Call
  list_call : Kind → Endpoint → Text → Text → Call
  create_call update_call : (k : Kind) → Key → Object k → Call
  patch_call patch_status_call : (k : Kind) → Key → Object k → Object k → Call
  patch_deployment_call : Key → Text → Call
  delete_call : Kind → Key → Call
  mapping_call : Endpoint → Text → Call
  apply_call : Apply → Call

-- What a server answers.
abbrev pub Answered : Call → Type 0
Answered (get_call k key) = Object k
Answered (list_call k e ns selector) = List (Object k)
Answered (mapping_call e kind) = Mapping
Answered _ = Unit

unfoldable pub perform : {W : Type 0} → Server W → (c : Call) → Exec W (Answered c)
perform S (get_call k key) = S.get k key
perform S (list_call k e ns selector) = S.list k e ns selector
perform S (create_call k key x) = S.create k key x
perform S (update_call k key x) = S.update k key x
perform S (patch_call k key x y) = S.patch k key x y
perform S (patch_status_call k key x y) = S.patch_status k key x y
perform S (patch_deployment_call key body) = S.patch_deployment key body
perform S (delete_call k key) = S.delete k key
perform S (mapping_call e kind) = S.rest_mapping e kind
perform S (apply_call a) = S.apply a

-- The world after the requests of a list; the last one stands first.
unfoldable pub run_calls : {W : Type 0} → Server W → List Call → W → W
unfolding perform
run_calls S [] w = w
run_calls S (c ∷ older) w = (perform S c (run_calls S older w)).1

-- The answers that one run gets: to each request, behind those that it has made.
abbrev pub Oracle : Type 0
Oracle = List Call → (c : Call) → Result (Answered c)

-- Servers that answer by an oracle, and note the requests.
abbrev pub traced : (RestConfig → Result (Unit {0})) → Oracle → Server (List Call)
traced new_client oracle = record {
  new_client = new_client;
  get = λ k key older. (oracle older (get_call k key), get_call k key ∷ older);
  list = λ k e ns selector older.
      (oracle older (list_call k e ns selector), list_call k e ns selector ∷ older);
  create = λ k key x older. (oracle older (create_call k key x), create_call k key x ∷ older);
  update = λ k key x older. (oracle older (update_call k key x), update_call k key x ∷ older);
  patch = λ k key x y older. (oracle older (patch_call k key x y), patch_call k key x y ∷ older);
  patch_status = λ k key x y older.
      (oracle older (patch_status_call k key x y), patch_status_call k key x y ∷ older);
  patch_deployment = λ key body older.
      (oracle older (patch_deployment_call key body), patch_deployment_call key body ∷ older);
  delete = λ k key older. (oracle older (delete_call k key), delete_call k key ∷ older);
  rest_mapping = λ e kind older. (oracle older (mapping_call e kind), mapping_call e kind ∷ older);
  apply = λ a older. (oracle older (apply_call a), apply_call a ∷ older);
}

-- An interleaving of two lists keeps the order of each.
pub data Merged {A : Type 0} : List A → List A → List A → Type 0 where
  both_empty : Merged [] [] []
  from_left : (x : A) (s t u : List A) → Merged s t u → Merged (x ∷ s) t (x ∷ u)
  from_right : (x : A) (s t u : List A) → Merged s t u → Merged s (x ∷ t) (x ∷ u)

-- What every request of a list is.
abbrev pub All : (Call → Type 0) → List Call → Type 0
All T [] = Unit
All T (c ∷ calls) = T c × All T calls

module _ (T U : Call → Type 0) (weaken : (c : Call) → T c → U c) where
  pub All-map : (calls : List Call) → All T calls → All U calls
  All-map [] h = tt
  All-map (c ∷ calls) (t, h) = (weaken c t, All-map calls h)

module _ (T U : Call → Type 0) where
  pub All-both : (calls : List Call) → All T calls → All U calls → All (λ c. T c × U c) calls
  All-both [] h h' = tt
  All-both (c ∷ calls) (t, h) (u, h') = ((t, u), All-both calls h h')

module _ (T : Call → Type 0) where
  pub All-newest : (calls older : List Call) → All T (calls ++ older) → All T calls
  All-newest [] older h = tt
  All-newest (c ∷ calls) older (t, h) = (t, All-newest calls older h)

  pub All-oldest : (newer calls : List Call) → All T (newer ++ calls) → All T calls
  All-oldest [] calls h = h
  All-oldest (c ∷ newer) calls (_, h) = All-oldest newer calls h

  pub All-Merged : (s t u : List Call) → Merged s t u → All T s → All T t → All T u
  All-Merged _ _ _ both_empty hs ht = tt
  All-Merged _ _ _ (from_left c s t u m) (h, hs) ht = (h, All-Merged s t u m hs ht)
  All-Merged _ _ _ (from_right c s t u m) hs (h, ht) = (h, All-Merged s t u m hs ht)
