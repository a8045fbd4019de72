-- ===== src/Provisioner/Settles/Steps.antt =====
-- The single objects of a workspace's setup, over what the answers to the requests say.
use dbaas.Prelude.{List}
use dbaas.Prelude.Text.{Text}
use Prim.Native.String.{String}
use dbaas.Exec.{Result, ok, err, is_not_found, is_already_exists}
use dbaas.Exec.Ensures.{
  Ensures, Ensures-bind, Ensures-if, Ensures-pure, Ensures-raise, Ensures-or_wrap, Ensures-weaken,
}
use dbaas.Cluster.{
  Server, Endpoint, Key, Kind, Object, api_binding, ApiBinding, name_space, service_account, secret,
  cluster_role_binding, ClusterRoleBinding,
}
use dbaas.Provisioner.Bindings.{desired_binding, bind_missing, ensure_binding}
use dbaas.Provisioner.Credentials.{
  created_or_exists, create_missing, ensure_workspace_namespace, ensure_service_account,
  ensure_token_secret, role_binding_key, role_binding_found, is_desired,
  ensure_admin_cluster_role_binding, workspace_role_binding,
}
use dbaas.Provisioner.Credentials.Laws.{is_desired-role_binding, is_desired-updated}
use dbaas.Provisioner.Env.{
  Provisioner, WorkspaceBinding, workspace_default_namespace, workspace_service_account_name,
  workspace_token_secret_name, cluster_key, default_key,
}
use dbaas.Provisioner.Settles.{Settles, Read, Ensures-get, Created, Ensures-create}
use dbaas.Provisioner.Stays.{Fresh, Test}

module _ {W : Type 0} (S : Server W) {There Open : Kind → Key → W → Type 0}
    {In : Kind → Key → Type 0} (Q : Settles S There Open In) where
  module _ (k : Kind) (key : Key) (here : In k key) where
    -- A creation that is tolerated leaves the object there.
    created_or_exists-There :
        (f : String) (args : List Text) (r : Result (Unit {0}))
        → Ensures (Created S Q k key here r) (created_or_exists S f args r) (λ _. There k key)
    unfolding created_or_exists
    created_or_exists-There f args (ok _) = Ensures-pure tt (λ w h. h)
    created_or_exists-There f args (err e) =
        Ensures-if (is_already_exists e) _ _ (λ t. Ensures-pure tt (λ w h. h t))
          (λ _. Ensures-raise _)

    create_missing-There :
        (x : Object k) (f g : String) (args : List Text) (r : Result (Object k))
        → ((y : Object k) → Test k y)
        → Fresh k x
        → Ensures (Read S Q k key here r) (create_missing S k key x f g args r) (λ _. There k key)
    unfolding create_missing
    create_missing-There x f g args (ok y) plain fresh = Ensures-pure tt (λ w h. h (plain y))
    create_missing-There x f g args (err e) plain fresh =
        Ensures-if (is_not_found e) _ _
          (λ n.
            Ensures-weaken (λ w h. h n)
              (Ensures-bind _ _ (Ensures-create S Q k key here x (plain x) fresh)
                (created_or_exists-There g args)))
          (λ _. Ensures-raise _)

  module _ {P : W → Type 0} (client : Endpoint) where
    pub ensure_workspace_namespace-There :
        In name_space (cluster_key client workspace_default_namespace)
        → Ensures P
            (ensure_workspace_namespace S client)
            (λ _. There name_space (cluster_key client workspace_default_namespace))
    unfolding ensure_workspace_namespace
    ensure_workspace_namespace-There here =
        Ensures-bind _ _ (Ensures-get S Q name_space _ here)
          (λ r. create_missing-There name_space _ here _ _ _ _ r (λ y. tt) tt)

    pub ensure_service_account-There :
        In service_account (default_key client workspace_service_account_name)
        → Ensures P
            (ensure_service_account S client)
            (λ _. There service_account (default_key client workspace_service_account_name))
    unfolding ensure_service_account
    ensure_service_account-There here =
        Ensures-bind _ _ (Ensures-get S Q service_account _ here)
          (λ r. create_missing-There service_account _ here _ _ _ _ r (λ y. tt) tt)

    pub ensure_token_secret-There :
        In secret (default_key client workspace_token_secret_name)
        → Ensures P
            (ensure_token_secret S client)
            (λ _. There secret (default_key client workspace_token_secret_name))
    unfolding ensure_token_secret
    ensure_token_secret-There here =
        Ensures-bind _ _ (Ensures-get S Q secret _ here)
          (λ r. create_missing-There secret _ here _ _ _ _ r (λ y. tt) tt)

  module _ (client : Endpoint) (here : In cluster_role_binding (role_binding_key S client)) where
    role_binding_found-There :
        (r : Result ClusterRoleBinding)
        → Ensures
            (Read S Q cluster_role_binding (role_binding_key S client) here r)
            (role_binding_found S client r)
            (λ _. There cluster_role_binding (role_binding_key S client))
    unfolding role_binding_found
    role_binding_found-There (err e) =
        Ensures-if (is_not_found e) _ _
          (λ n.
            Ensures-weaken (λ w h. h n)
              (Ensures-bind _ _
                (Ensures-create S Q cluster_role_binding _ here workspace_role_binding
                  is_desired-role_binding is_desired-role_binding)
                (created_or_exists-There cluster_role_binding _ here _ _)))
          (λ _. Ensures-raise _)
    role_binding_found-There (ok x) =
        Ensures-if (is_desired x) _ _ (λ d. Ensures-pure tt (λ w h. h d))
          (λ _. Ensures-or_wrap _ _ _ (record {
            at = λ w h a q.
                Q.update_ok-There cluster_role_binding _ _ w here (is_desired-updated x) q;
          }))

    pub ensure_admin_cluster_role_binding-There :
        {P : W → Type 0}
        → Ensures P
            (ensure_admin_cluster_role_binding S client)
            (λ _. There cluster_role_binding (role_binding_key S client))
    unfolding ensure_admin_cluster_role_binding
    ensure_admin_cluster_role_binding-There =
        Ensures-bind _ _ (Ensures-get S Q cluster_role_binding _ here) role_binding_found-There

  module _ (P : Provisioner) (client : Endpoint) (b : WorkspaceBinding)
      (here : In api_binding (cluster_key client b.name)) where
    bind_missing-There :
        (r : Result ApiBinding)
        → Ensures
            (Read S Q api_binding (cluster_key client b.name) here r)
            (bind_missing S P client b r)
            (λ _. There api_binding (cluster_key client b.name))
    unfolding bind_missing
    bind_missing-There (ok x) = Ensures-pure tt (λ w h. h tt)
    bind_missing-There (err e) =
        Ensures-if (is_not_found e) _ _
          (λ _. record {
            at = λ w h a q. Q.create_ok-There api_binding _ (desired_binding P b) w here tt q;
          })
          (λ _. Ensures-raise e)

    pub ensure_binding-There :
        {R : W → Type 0}
        → Ensures R
            (ensure_binding S P client b)
            (λ _. There api_binding (cluster_key client b.name))
    unfolding ensure_binding
    ensure_binding-There = Ensures-bind _ _ (Ensures-get S Q api_binding _ here) bind_missing-There
