-- ===== src/Provisioner/Bindings.antt =====
-- internal/provisioner/binding.go: `ensureWorkspaceBindings` and `desiredBinding`.
pub mod Laws
use dbaas.Prelude.{Bool, true, false, List, [], ◌∷◌, if◌then◌else◌}
use dbaas.Prelude.Text.{Text}
use dbaas.Exec.{Error, Result, ok, err, is_not_found, Exec, pure, raise, attempt, ◌>>=◌, ◌>>◌}
use dbaas.Cluster.{Server, Endpoint, ApiBinding, api_binding, Meta}
use dbaas.Provisioner.Env.{Provisioner, WorkspaceBinding, cluster_key}

-- Metadata with a name alone.
abbrev pub named : Text → Meta
named name = record {
  name = name;
  namespace = [];
  annotations = [];
  finalizers = [];
  deleting = false;
}

-- `desiredBinding`
unfoldable pub desired_binding : Provisioner → WorkspaceBinding → ApiBinding
desired_binding P b = record {
  meta = named b.name;
  export_name = b.export_name;
  export_path = P.provider_workspace;
  permission_claims = b.permission_claims;
}

module _ {W : Type 0} (S : Server W) (P : Provisioner) (client : Endpoint) where
  -- What follows the read of a binding.
  unfoldable pub bind_missing : WorkspaceBinding → Result ApiBinding → Exec W (Unit {0})
  bind_missing b (ok existing) = pure tt
  bind_missing b (err e) =
      if is_not_found e
      then S.create api_binding (cluster_key client b.name) (desired_binding P b)
      else raise e

  -- One round of the loop.
  unfoldable pub ensure_binding : WorkspaceBinding → Exec W (Unit {0})
  ensure_binding b = do
    r ← attempt (S.get api_binding (cluster_key client b.name))
    bind_missing b r

  unfoldable pub ensure_bindings : List WorkspaceBinding → Exec W (Unit {0})
  ensure_bindings [] = pure tt
  ensure_bindings (b ∷ bs) = ensure_binding b >> ensure_bindings bs

  -- `ensureWorkspaceBindings`
  unfoldable pub ensure_workspace_bindings : Exec W (Unit {0})
  unfolding ensure_bindings
  ensure_workspace_bindings = ensure_bindings P.bindings
