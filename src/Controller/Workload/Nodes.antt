-- ===== src/Controller/Workload/Nodes.antt =====
-- The nodes behind `reconcileControlPlaneScheduling`.
use dbaas.Prelude.{
  Bool, false, not, List, [], ◌∷◌, some, if◌then◌else◌, ◌≡◌, ◌⊎◌, inl, inr, ◌∙◌, refl, sym, arith,
}
use mathlib.Core.Path.{subst}
use dbaas.Prelude.Text.{Text, codes}
use dbaas.Exec.{ok, ◌>>=◌}
use dbaas.Exec.Keeps.{Keeps, Keeps-bind, Keeps-×, Keeps-if, Keeps-or_wrap, Keeps-pure}
use dbaas.Exec.Ensures.{
  Ensures, Ensures-bind, Ensures-if, Ensures-or_wrap, Ensures-pure, Ensures-and, Ensures-Keeps,
}
use dbaas.Cluster.{
  Server, Endpoint, Key, Key-discrete, Kind, Object, remote, RestConfig, node, Node, Kubernetes,
}
use dbaas.Cluster.Lawful.{IsLawful}
use dbaas.Cluster.Lawful.Exists.{ExistsWith}
use dbaas.Cluster.Lawful.Frame
use dbaas.Cluster.Lawful.Stays
use dbaas.Controller.Env.{Packages}
use dbaas.Controller.Taints.{desired_control_plane_taints}
use dbaas.Controller.Taints.Laws.{is_tainted, desired_control_plane_taints_correct, changed_exact}
use dbaas.Controller.Workload.{
  workload_rest_config, update_node, update_nodes, allows_scheduling,
  reconcile_control_plane_scheduling,
}

-- A node has the control-plane taint exactly if it is to keep regular pods off.
abbrev Test : Bool → (k : Kind) → Object k → Type 0
Test allow node n = is_tainted n.taints ≡ not allow
Test allow _ o = Unit

abbrev pub node_key : RestConfig → Node → Key
node_key cfg n = record { endpoint = remote cfg; namespace = []; name = n.meta.name }

module _ (P : Packages) {W : Type 0} (S : Server W) (L : IsLawful S) (cfg : RestConfig) where
  -- Every node of a list is held as it was listed.
  abbrev pub AllHeld : List Node → W → Type 0
  AllHeld [] w = Unit
  AllHeld (n ∷ ns) w = (L.find node (node_key cfg n) w ≡ some n) × AllHeld ns w

  module _ (allow : Bool) where
    abbrev pub IsScheduled : Node → W → Type 0
    IsScheduled n = ExistsWith S L node (node_key cfg n) (λ o. is_tainted o.taints ≡ not allow)

    -- Every node of a list has the control-plane taint exactly if scheduling is not allowed.
    abbrev pub AllScheduled : List Node → W → Type 0
    AllScheduled [] w = Unit
    AllScheduled (n ∷ ns) w = IsScheduled n w × AllScheduled ns w

    abbrev IsOpen : Node → W → Type 0
    IsOpen n w = (L.find node (node_key cfg n) w ≡ some n) ⊎ IsScheduled n w

    abbrev AllOpen : List Node → W → Type 0
    AllOpen [] w = Unit
    AllOpen (n ∷ ns) w = IsOpen n w × AllOpen ns w

    abbrev updated : Node → Node
    updated n = record n { taints = (desired_control_plane_taints n.taints allow).0 }

    unchanged-tainted : (b : Bool) → (if allow then b else not b) ≡ false → b ≡ not allow
    unchanged-tainted b h = ground arith

    update_node-IsScheduled :
        (n : Node) → Ensures (IsOpen n) (update_node P S cfg allow n) (λ _. IsScheduled n)
    unfolding update_node
    update_node-IsScheduled n =
        Ensures-if (desired_control_plane_taints n.taints allow).1 _ _
          (λ changed. Ensures-or_wrap _ _ _ (record {
            at = λ w h a e. (
              _,
              L.update_ok node (node_key cfg n) _ w (inl (ground arith)) e,
              (desired_control_plane_taints_correct n.taints allow).0,
            );
          }))
          (λ same. Ensures-pure tt (λ w h. elim h [
            | inl held ↦ (
              n,
              held,
              unchanged-tainted (is_tainted n.taints) (sym (changed_exact n.taints allow) ∙ same),
            )
            | inr good ↦ good
          ]))

    update_node-Keeps : (n m : Node) → Keeps (IsScheduled m) (update_node P S cfg allow n)
    unfolding update_node
    update_node-Keeps n m =
        Keeps-if _ _ _
          (Keeps-or_wrap _ _ _ (
            Stays.Keeps-update S L (Test allow) node (node_key cfg m) (ground arith) node
              (node_key cfg n) _ (desired_control_plane_taints_correct n.taints allow).0))
          (Keeps-pure tt)

    -- An update of one node leaves another as it was, or in line.
    update-IsOpen : (n m : Node) → Keeps (IsOpen m) (S.update node (node_key cfg n) (updated n))
    update-IsOpen n m = record {
      at = λ w h. elim h [
        | inr good ↦ inr (
            (Stays.Keeps-update S L (Test allow) node (node_key cfg m) (ground arith) node
                (node_key cfg n) (updated n)
                (desired_control_plane_taints_correct n.taints allow).0).at
              w good)
        | inl held ↦ elim (Key-discrete (node_key cfg n) (node_key cfg m)) [
          | no differ ↦ inl (
              L.find-update node (node_key cfg n) (updated n) w node (node_key cfg m) (inr differ)
              ∙ held)
          | yes same ↦
              elim (subst
                (λ j.
                  (L.find node j (S.update node (node_key cfg n) (updated n) w).1 ≡ L.find node j w)
                  ⊎ (L.find node j (S.update node (node_key cfg n) (updated n) w).1
                      ≡ some (updated n)))
                same (L.update_any node (node_key cfg n) (updated n) w (inl (ground arith)))) [
                  | inl unchanged ↦ inl (unchanged ∙ held)
                  | inr new ↦
                      inr (updated n, new, (desired_control_plane_taints_correct n.taints allow).0)
                ]
        ]
      ];
    }

    update_node-AllOpen :
        (n : Node) (ms : List Node) → Keeps (AllOpen ms) (update_node P S cfg allow n)
    unfolding update_node
    update_node-AllOpen n [] = record { at = λ w h. h }
    update_node-AllOpen n (m ∷ ms) =
        Keeps-× (Keeps-if _ _ _ (Keeps-or_wrap _ _ _ (update-IsOpen n m)) (Keeps-pure tt))
          (update_node-AllOpen n ms)

    update_nodes-Keeps :
        (ns : List Node) (m : Node) → Keeps (IsScheduled m) (update_nodes P S cfg allow ns)
    unfolding update_nodes
    update_nodes-Keeps [] m = Keeps-pure tt
    update_nodes-Keeps (n ∷ ns) m =
        Keeps-bind _ _ (update_node-Keeps n m) (λ _. update_nodes-Keeps ns m)

    update_nodes-AllScheduled :
        (ns : List Node)
        → Ensures (AllOpen ns) (update_nodes P S cfg allow ns) (λ _. AllScheduled ns)
    unfolding update_nodes
    update_nodes-AllScheduled [] = Ensures-pure tt (λ w h. h)
    update_nodes-AllScheduled (n ∷ ns) =
        Ensures-bind {R = λ _ w. IsScheduled n w × AllOpen ns w} _ _
          (Ensures-and (update_node-IsScheduled n) (Ensures-Keeps _ (update_node-AllOpen n ns)))
          (λ _.
            Ensures-and (Ensures-Keeps _ (update_nodes-Keeps ns n)) (update_nodes-AllScheduled ns))

    AllHeld-AllOpen : (ns : List Node) (w : W) → AllHeld ns w → AllOpen ns w
    AllHeld-AllOpen [] w h = h
    AllHeld-AllOpen (n ∷ ns) w (h, hs) = (inl h, AllHeld-AllOpen ns w hs)

  list-AllHeld :
      (e : Endpoint) (selector : Text) (ns : List Node)
      → Keeps (AllHeld ns) (S.list node e [] selector)
  list-AllHeld e selector [] = record { at = λ w h. h }
  list-AllHeld e selector (n ∷ ns) =
      Keeps-× (Frame.Keeps-list S L node (node_key cfg n) (some n) node e [] selector)
        (list-AllHeld e selector ns)

  module _ (obj : Kubernetes) (w : W) (nodes : List Node)
      (config : (workload_rest_config P S obj.meta.namespace obj.meta.name w).0 ≡ ok cfg)
      (client : S.new_client cfg ≡ ok tt)
      (listed : (S.list node
          (remote cfg)
          []
          (codes "node-role.kubernetes.io/control-plane")
          (workload_rest_config P S obj.meta.namespace obj.meta.name w).1).0
        ≡ ok nodes) where
    abbrev listed_world : W
    listed_world =
        (S.list node (remote cfg) [] (codes "node-role.kubernetes.io/control-plane")
          (workload_rest_config P S obj.meta.namespace obj.meta.name w).1).1

    scheduling_lem :
        reconcile_control_plane_scheduling P S obj w
        ≡ update_nodes P S cfg (allows_scheduling P S obj) nodes listed_world
    unfolding reconcile_control_plane_scheduling ◌>>=◌
    scheduling_lem = rw (config, client, listed) refl

    -- Over servers that are lawful (`IsLawful`). Let the config of the workload cluster be read, a
    -- client of it be made, and the control-plane nodes be listed as the server holds them. If
    -- `reconcileControlPlaneScheduling` succeeds, every one of these nodes has the control-plane
    -- NoSchedule taint exactly if the object does not allow scheduling.
    pub reconcile_control_plane_scheduling-AllScheduled :
        AllHeld nodes (workload_rest_config P S obj.meta.namespace obj.meta.name w).1
        → (reconcile_control_plane_scheduling P S obj w).0 ≡ ok tt
        → AllScheduled
            (allows_scheduling P S obj)
            nodes
            (reconcile_control_plane_scheduling P S obj w).1
    reconcile_control_plane_scheduling-AllScheduled held done = rw scheduling_lem (
        (update_nodes-AllScheduled (allows_scheduling P S obj) nodes).at listed_world
          (AllHeld-AllOpen (allows_scheduling P S obj) nodes listed_world
            ((list-AllHeld _ _ nodes).at _ held))
          tt (rw scheduling_lem at done))
