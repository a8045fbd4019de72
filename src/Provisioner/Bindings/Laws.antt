-- ===== src/Provisioner/Bindings/Laws.antt =====
-- The bindings of a workspace, in the words of what the servers hold.
use dbaas.Prelude.{List, [], ◌∷◌}
use dbaas.Cluster.{Server, Endpoint, api_binding}
use dbaas.Cluster.Lawful.{IsLawful}
use dbaas.Cluster.Lawful.Exists.{Exists}
use dbaas.Provisioner.Env.{Provisioner, WorkspaceBinding, cluster_key}

module _ {W : Type 0} (S : Server W) (L : IsLawful S) (P : Provisioner) (client : Endpoint) where
  -- The binding is in the workspace.
  abbrev pub IsBound : WorkspaceBinding → W → Type 0
  IsBound b = Exists S L api_binding (cluster_key client b.name)

  abbrev pub AllBound : List WorkspaceBinding → W → Type 0
  AllBound [] w = Unit
  AllBound (b ∷ bs) w = IsBound b w × AllBound bs w
