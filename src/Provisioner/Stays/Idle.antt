-- ===== src/Provisioner/Stays/Idle.antt =====
-- `EnsureWorkspaceSetup` where everything is there already.
use dbaas.Provisioner.Stays.Prepared.{InSetup-ne-kubernetes}
use dbaas.Prelude.{
  true, false, List, [], ◌∷◌, Option, some, none, ◌≡◌, ◌∙◌, refl, sym, inl, inr, Bool-cases,
}
use dbaas.Prelude.Text.{Text}
use Prim.Native.String.{String}
use mathlib.Core.Path.{subst}
use dbaas.Exec.{Error, Result, ok, err, is_not_found, Exec, attempt, ◌>>=◌}
use dbaas.Exec.Keeps.{
  Keeps, Keeps-bind, Keeps-bind_lifted, Keeps-or_wrap, Keeps-pure, Keeps-raise, Keeps-×,
}
use dbaas.Url.{UrlPackage}
use dbaas.Cluster.{
  Server, Endpoint, Key, Kind, Object, workspace, api_binding, name_space, service_account, secret,
  cluster_role_binding,
}
use dbaas.Cluster.Lawful.{IsLawful, Apart}
use dbaas.Cluster.Lawful.Exists.{ExistsWith}
use dbaas.Cluster.Lawful.Frame
use dbaas.Cluster.Respects.{Reads}
use dbaas.Provisioner.Stays.{kept}
use dbaas.Provisioner.Env.{
  Provisioner, client_for_workspace, consumer_path, cluster_key, WorkspaceBinding,
}
use dbaas.Provisioner.Bindings.Laws.{AllBound}
use dbaas.Provisioner.Credentials.{
  create_missing, ensure_credentials, ensure_workspace_namespace, ensure_service_account,
  ensure_token_secret, ensure_admin_cluster_role_binding, role_binding_found, role_binding_key,
  is_desired, ensure_scoped_workspace_credentials, mark_workspace_scoped_credentials, marked,
}
use dbaas.Provisioner.Stays.Prepared.{Keeps-prepared}
use dbaas.Provisioner.Credentials.Laws.{IsProvisioned, credential_mode-marked}
use dbaas.Provisioner.Bindings.{
  ensure_bindings, ensure_binding, bind_missing, ensure_workspace_bindings,
}
use dbaas.Provisioner.Workspaces.{ensure_workspace_setup, consumers_client}
use dbaas.Exec.Ensures.{ok-injective}
use dbaas.Provisioner.Reads.{Keeps-workspace_service_account_token}

some-injective : {A : Type 0} {a b : A} → some a ≡ some b → a ≡ b
some-injective e = cc

none_or_some : {A B : Type 0} {o : Option A} {a : A} → o ≡ none → o ≡ some a → B
none_or_some e h = cc

module _ {W : Type 0} (S : Server W) (L : IsLawful S) {K : W → Type 0} (Q : Reads S K) where
  module _ (k : Kind) (key : Key) (T : Object k → Type 0)
      (there : (w : W) → K w → ExistsWith S L k key T w) where
    -- An object that is there is read, or the read fails otherwise than for want of it.
    Keeps-found :
        {B : Type 0} (f : Result (Object k) → Exec W B)
        → ((x : Object k) → T x → Keeps K (f (ok x)))
        → ((e : Error) → is_not_found e ≡ false → Keeps K (f (err e)))
        → Keeps K (attempt (S.get k key) >>= f)
    unfolding ◌>>=◌
    Keeps-found f found failed = record {
      at = λ w h. answer w h (there w h) (S.get k key w).0 refl;
    }
      where
        kept : (w : W) → K w → K (S.get k key w).1
        kept = (Q.keeps_get k key).at

        answer :
            (w : W)
            → K w
            → ExistsWith S L k key T w
            → (r : Result (Object k)) → (S.get k key w).0 ≡ r
            → K (f r (S.get k key w).1).1
        answer w h (x, held, t) (ok y) e =
            (found y (subst T (some-injective (sym held ∙ L.get_ok k key w y e)) t)).at _ (kept w h)
        answer w h (x, held, t) (err y) e = elim (Bool-cases (is_not_found y)) [
          | inl gone ↦ none_or_some (L.get_not_found k key w y e gone) held
          | inr other ↦ (failed y other).at _ (kept w h)
        ]

module _ {W : Type 0} (S : Server W) (L : IsLawful S) (U : UrlPackage) (P : Provisioner)
    (name : Text) (consumers client : Endpoint)
    (consumers_found : client_for_workspace U S P P.consumers_workspace ≡ ok consumers)
    (client_found : client_for_workspace U S P (consumer_path U S P name) ≡ ok client) where
  abbrev Prepared : W → Type 0
  Prepared w = AllBound S L P client P.bindings w × IsProvisioned S L client w

  module _ (k' : Kind) (key' : Key) (o : Option (Object k')) where
    -- All is prepared, and some object is held as it was.
    abbrev Same : W → Type 0
    Same w = Prepared w × (L.find k' key' w ≡ o)

    reads_rule : Reads S Same
    reads_rule = record {
      keeps_get = λ k key.
          Keeps-×
            (Keeps-prepared S L _ P client (λ j i here.
              (kept S L j i (InSetup-ne-kubernetes client j i here)).reads.keeps_get k key))
            (Frame.Keeps-get S L k' key' o k key);
      keeps_list = λ k e ns selector.
          Keeps-×
            (Keeps-prepared S L _ P client (λ j i here.
              (kept S L j i (InSetup-ne-kubernetes client j i here)).reads.keeps_list k e ns
                selector))
            (Frame.Keeps-list S L k' key' o k e ns selector);
    }

    missing_rule :
        (k : Kind) (key : Key) (x : Object k) (f g : String) (args : List Text)
        → ((w : W) → Same w → ExistsWith S L k key (λ y. Unit {0}) w)
        → Keeps Same (attempt (S.get k key) >>= create_missing S k key x f g args)
    unfolding create_missing
    missing_rule k key x f g args there =
        Keeps-found S L reads_rule k key (λ y. Unit {0}) there _ (λ y _. Keeps-pure tt)
          (λ e other. rw other (Keeps-raise _))

    credentials_rule : Keeps Same (ensure_credentials U S P client)
    unfolding ensure_credentials ensure_workspace_namespace ensure_service_account
        ensure_token_secret ensure_admin_cluster_role_binding role_binding_found
    credentials_rule =
        Keeps-bind _ _
          (missing_rule name_space _ _ _ _ _ (λ w ((_, ((((x, h), _), _), _)), _). (x, h, tt)))
          (λ _.
            Keeps-bind _ _
              (missing_rule service_account _ _ _ _ _
                (λ w ((_, (((_, (x, h)), _), _)), _). (x, h, tt)))
              (λ _.
                Keeps-bind _ _
                  (missing_rule secret _ _ _ _ _ (λ w ((_, ((_, (x, h)), _)), _). (x, h, tt)))
                  (λ _.
                    Keeps-found S L reads_rule cluster_role_binding (role_binding_key S client)
                      (λ b. is_desired b ≡ true) (λ w ((_, (_, binding)), _). binding) _
                      (λ b desired. rw desired (Keeps-pure tt))
                      (λ e other. rw other (Keeps-raise _)))))

    bindings_rule :
        (bs : List WorkspaceBinding)
        → ((w : W) → Same w → AllBound S L P client bs w)
        → Keeps Same (ensure_bindings S P client bs)
    unfolding ensure_bindings ensure_binding bind_missing
    bindings_rule [] there = Keeps-pure tt
    bindings_rule (b ∷ bs) there =
        Keeps-bind _ _
          (Keeps-found S L reads_rule api_binding (cluster_key client b.name) (λ y. Unit {0})
            (λ w h. let ((x, held), more) = there w h in (x, held, tt)) _ (λ y _. Keeps-pure tt)
            (λ e other. rw other (Keeps-raise _)))
          (λ _. bindings_rule bs (λ w h. (there w h).1))

    module _ (far : Apart workspace (cluster_key consumers name) k' key') where
      mark_rule : Keeps Same (mark_workspace_scoped_credentials S consumers name)
      unfolding mark_workspace_scoped_credentials
      mark_rule = Keeps-bind _ _ (reads_rule.keeps_get workspace (cluster_key consumers name)) (λ x.
          Keeps-×
            (Keeps-prepared S L _ P client (λ j i here.
              (kept S L j i (InSetup-ne-kubernetes client j i here)).keeps_update workspace
                (cluster_key consumers name) (marked x) (credential_mode-marked x)))
            (Frame.Keeps-update S L k' key' o workspace (cluster_key consumers name) (marked x)
              far))

      scoped_rule :
          Keeps Same (ensure_scoped_workspace_credentials U S P (consumer_path U S P name))
      unfolding ensure_scoped_workspace_credentials
      scoped_rule = Keeps-bind_lifted _ _ _ _ (λ c known.
          Keeps-bind _ _
            (subst (λ e. Keeps Same (ensure_credentials U S P e))
              (ok-injective (sym client_found ∙ known)) credentials_rule)
            (λ _.
              Keeps-bind _ _ (Keeps-workspace_service_account_token S reads_rule U P _)
                (λ _. Keeps-pure tt)))

      setup_rule : Keeps Same (ensure_workspace_setup U S P name)
      unfolding ensure_workspace_setup consumers_client ensure_workspace_bindings
      setup_rule = Keeps-bind_lifted _ _ _ _ (λ c known. Keeps-bind_lifted _ _ _ _ (λ d known'.
          Keeps-bind _ _
            (Keeps-or_wrap _ _ _ (
              subst (λ e. Keeps Same (ensure_bindings S P e P.bindings))
                (ok-injective (sym client_found ∙ known'))
                (bindings_rule P.bindings (λ w h. h.0.0))))
            (λ _. Keeps-bind _ _ (Keeps-or_wrap _ _ _ scoped_rule) (λ _.
              Keeps-bind _ _
                (Keeps-or_wrap _ _ _ (
                  subst (λ e. Keeps Same (mark_workspace_scoped_credentials S e name))
                    (ok-injective (sym consumers_found ∙ known)) mark_rule))
                (λ _. Keeps-pure _)))))

  -- Over servers that are lawful (`IsLawful`). Let clients of the consumers' parent and of the
  -- workspace be made, and let every binding of the provisioner, the namespace, the service
  -- account and the token secret be in the workspace, and a role binding that gives cluster-admin
  -- to the service account alone. Then `EnsureWorkspaceSetup`, whether it succeeds or fails,
  -- changes no object but the workspace's own.
  pub ensure_workspace_setup_idle :
      (w : W) (k : Kind) (key : Key)
      → AllBound S L P client P.bindings w × IsProvisioned S L client w
      → Apart workspace (cluster_key consumers name) k key
      → L.find k key (ensure_workspace_setup U S P name w).1 ≡ L.find k key w
  ensure_workspace_setup_idle w k key prepared far =
      ((setup_rule k key (L.find k key w) far).at w (prepared, refl)).1
