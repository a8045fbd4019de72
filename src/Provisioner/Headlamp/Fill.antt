-- ===== src/Provisioner/Headlamp/Fill.antt =====
-- The entries that the loop over `desired` writes, in whatever order Go visits the map.
use dbaas.Prelude.{
  Bool, true, false, List, [], ◌∷◌, ◌++◌, Option, none, some, if◌then◌else◌, ◌≡◌, ◌∙◌, sym, refl,
  arith, Bool-cases, inl, inr,
}
use mathlib.Core.Path.{subst}
use dbaas.Prelude.Text.{Text, codes, ◌==◌, eq→≡, eq_refl}
use dbaas.Prelude.Dict.{Dict, lookup, lookup-insert}
use dbaas.Exec.{Error, Result, ok, err, attempt}
use dbaas.Exec.Ensures.{Ensures, Ensures-bind, Ensures-pure, Ensures-any, ok-injective}
use dbaas.Url.{UrlPackage}
use dbaas.Cluster.{Server, Workspace}
use dbaas.Provisioner.Credentials.{workspace_credential_mode, workspace_service_account_token}
use dbaas.Provisioner.Env.{
  consumer_path, Provisioner, CredentialMode, admin, scoped, AuthInfo, token_auth_info,
  admin_auth_info,
}
use dbaas.Provisioner.Kubeconfig.{Config, cluster_entry}
use dbaas.Provisioner.Headlamp.{
  MapOrder, headlamp_cluster, headlamp_context, set_entries, token_read, fill_entry, fill_found,
  fill,
}
use dbaas.Provisioner.Headlamp.Stale.{Entries, entries, is_listed}

-- An answer to the read of the token in the workspace of this name.
abbrev pub Answers :
    (U : UrlPackage) {W : Type 0} (S : Server W) → Provisioner → Text → Result Text → Type 0
Answers U {W} S P name r =
    (w : W) × ((workspace_service_account_token U S P (consumer_path U S P name) w).0 ≡ r)

-- The credentials that belong to a mode: the token that was read in the workspace of this name
-- alone, or those of the admin.
pub data IsUser (U : UrlPackage) {W : Type 0} (S : Server W) (P : Provisioner) (name : Text)
    (mode : CredentialMode) (auth : AuthInfo) : Type 0 where
  admin_user : mode ≡ admin → auth ≡ admin_auth_info P.admin_config → IsUser U S P name mode auth
  scoped_user :
      (token : Text)
      → mode ≡ scoped
      → Answers U S P name (ok token)
      → auth ≡ record {
        token = token;
        client_certificate_data = [];
        client_key_data = [];
        client_certificate = [];
        client_key = [];
      }
      → IsUser U S P name mode auth

-- The workspace's address at the front proxy, with the trust of the admin config, under its name.
abbrev pub entries_of : Provisioner → Text → AuthInfo → Entries
entries_of P name auth = record {
  cluster = some (record {
    server =
        codes "https://kcp-front-proxy.kcp.svc.cluster.local:8443/clusters/"
        ++ (P.consumers_workspace ++ b':' ∷ name);
    insecure_skip_tls_verify = P.admin_config.insecure;
    certificate_authority_data = if P.admin_config.insecure then [] else P.admin_config.ca_data;
  });
  auth_info = some auth;
  context = some (record { cluster = name; auth_info = name });
}

-- What the code writes.
abbrev written_entries : Provisioner → Text → AuthInfo → Entries
written_entries P name auth = record {
  cluster = some (headlamp_cluster P name);
  auth_info = some auth;
  context = some (headlamp_context P name);
}

written_entries_lem :
    (P : Provisioner) (name : Text) (auth : AuthInfo)
    → written_entries P name auth ≡ entries_of P name auth
unfolding headlamp_cluster cluster_entry
written_entries_lem P name auth = refl

-- A workspace has new entries; one with scoped credentials keeps the old ones where the read of its
-- token failed.
pub data Shown (U : UrlPackage) {W : Type 0} (S : Server W) (P : Provisioner) (name : Text)
    (mode : CredentialMode) (old new : Entries) : Type 0 where
  written :
      (auth : AuthInfo)
      → IsUser U S P name mode auth
      → new ≡ entries_of P name auth
      → Shown U S P name mode old new
  kept :
      (e : Error)
      → mode ≡ scoped
      → Answers U S P name (err e)
      → new ≡ old
      → Shown U S P name mode old new

-- What a visit of a name does to its entries.
abbrev pub Visited :
    (U : UrlPackage) {W : Type 0} (S : Server W)
    → Provisioner
    → Text
    → Option Workspace
    → Entries
    → Entries
    → Type 0
Visited U S P name none old new = new ≡ old
Visited U S P name (some ws) old new = Shown U S P name (workspace_credential_mode ws) old new

-- What the loop does to them.
abbrev pub Filled :
    (U : UrlPackage) {W : Type 0} (S : Server W)
    → Provisioner
    → Text
    → Option Workspace
    → Bool
    → Entries
    → Entries
    → Type 0
Filled U S P name o false old new = new ≡ old
Filled U S P name o true old new = Visited U S P name o old new

entries-set_entries :
    (P : Provisioner) (name other : Text) (auth : AuthInfo) (cfg : Config)
    → entries name (set_entries P other auth cfg)
      ≡ (if name == other then written_entries P other auth else entries name cfg)
unfolding set_entries
entries-set_entries P name other auth cfg = ground (
  arith,
  lookup-insert other name (headlamp_cluster P other) cfg.clusters,
  lookup-insert other name auth cfg.auth_infos,
  lookup-insert other name (headlamp_context P other) cfg.contexts,
)

entries-set_entries_self :
    (P : Provisioner) (name : Text) (auth : AuthInfo) (cfg : Config)
    → entries name (set_entries P name auth cfg) ≡ entries_of P name auth
entries-set_entries_self P name auth cfg =
    rw (entries-set_entries P name name auth cfg, eq_refl name) (written_entries_lem P name auth)

entries-set_entries_other :
    (P : Provisioner) (name other : Text) (auth : AuthInfo) (cfg : Config)
    → (name == other) ≡ false
    → entries name (set_entries P other auth cfg) ≡ entries name cfg
entries-set_entries_other P name other auth cfg far =
    rw (entries-set_entries P name other auth cfg, far) refl

Shown-trans :
    {U : UrlPackage} {W : Type 0} {S : Server W} {P : Provisioner} {name : Text}
    {mode : CredentialMode} (old mid new : Entries)
    → Shown U S P name mode old mid
    → Shown U S P name mode mid new
    → Shown U S P name mode old new
Shown-trans old mid new s (written auth u e) = written auth u e
Shown-trans old mid new (kept x m a e) (kept y n b f) = kept x m a (f ∙ e)
Shown-trans old mid new (written auth u e) (kept y n b f) = written auth u (f ∙ e)

Visited-trans :
    (U : UrlPackage) {W : Type 0} (S : Server W) (P : Provisioner) (name : Text)
    (o : Option Workspace) (listed : Bool) (old mid new : Entries)
    → Visited U S P name o old mid
    → Filled U S P name o listed mid new
    → Visited U S P name o old new
Visited-trans U S P name none false old mid new v f = f ∙ v
Visited-trans U S P name none true old mid new v f = f ∙ v
Visited-trans U S P name (some ws) false old mid new v f =
    subst (λ e. Shown U S P name (workspace_credential_mode ws) old e) (sym f) v
Visited-trans U S P name (some ws) true old mid new v f = Shown-trans old mid new v f

Filled-from :
    (U : UrlPackage) {W : Type 0} (S : Server W) (P : Provisioner) (name : Text)
    (o : Option Workspace) (listed : Bool) (old mid new : Entries)
    → mid ≡ old
    → Filled U S P name o listed mid new
    → Filled U S P name o listed old new
Filled-from U S P name o listed old mid new same f =
    subst (λ e. Filled U S P name o listed e new) same f

module _ (load : Text → Result Config) (write : Config → Result Text) (U : UrlPackage) {W : Type 0}
    (S : Server W) (P : Provisioner) (O : MapOrder) where
  token_read-Shown :
      (name : Text) (cfg : Config) (r : Result Text)
      → Answers U S P name r
      → Shown U S P name scoped
          (entries name cfg)
          (entries name (token_read load write U S P O name cfg r))
  unfolding token_read
  token_read-Shown name cfg (err e) a = kept e refl a refl
  token_read-Shown name cfg (ok token) a =
      written (token_auth_info token) (scoped_user token refl a refl)
        (entries-set_entries_self P name (token_auth_info token) cfg)

  fill_entry-Shown :
      {Q : W → Type 0} (name : Text) (mode : CredentialMode) (cfg : Config)
      → Ensures Q
          (fill_entry load write U S P O name mode cfg)
          (λ next _. Shown U S P name mode (entries name cfg) (entries name next))
  unfolding fill_entry attempt
  fill_entry-Shown name admin cfg = Ensures-pure _ (λ w h.
      written (admin_auth_info P.admin_config) (admin_user refl refl)
        (entries-set_entries_self P name (admin_auth_info P.admin_config) cfg))
  fill_entry-Shown name scoped cfg =
      Ensures-bind {R = λ r _. Answers U S P name r} _ _
        (record { at = λ w h r e. (w, ok-injective e) })
        (λ r. Ensures-pure _ (λ w a. token_read-Shown name cfg r a))

  fill_found-Visited :
      {Q : W → Type 0} (name : Text) (o : Option Workspace) (cfg : Config)
      → Ensures Q
          (fill_found load write U S P O name o cfg)
          (λ next _. Visited U S P name o (entries name cfg) (entries name next))
  unfolding fill_found
  fill_found-Visited name none cfg = Ensures-pure cfg (λ w h. refl)
  fill_found-Visited name (some ws) cfg = fill_entry-Shown name (workspace_credential_mode ws) cfg

  token_read-other :
      (name other : Text) (cfg : Config) (r : Result Text)
      → (name == other) ≡ false
      → entries name (token_read load write U S P O other cfg r) ≡ entries name cfg
  unfolding token_read
  token_read-other name other cfg (err e) far = refl
  token_read-other name other cfg (ok token) far =
      entries-set_entries_other P name other (token_auth_info token) cfg far

  fill_entry-other :
      {Q : W → Type 0} (name other : Text) (mode : CredentialMode) (cfg : Config)
      → (name == other) ≡ false
      → Ensures Q
          (fill_entry load write U S P O other mode cfg)
          (λ next _. entries name next ≡ entries name cfg)
  unfolding fill_entry
  fill_entry-other name other admin cfg far =
      Ensures-pure _
        (λ w h. entries-set_entries_other P name other (admin_auth_info P.admin_config) cfg far)
  fill_entry-other name other scoped cfg far =
      Ensures-bind _ _ (Ensures-any _)
        (λ r. Ensures-pure _ (λ w h. token_read-other name other cfg r far))

  fill_found-other :
      {Q : W → Type 0} (name other : Text) (o : Option Workspace) (cfg : Config)
      → (name == other) ≡ false
      → Ensures Q
          (fill_found load write U S P O other o cfg)
          (λ next _. entries name next ≡ entries name cfg)
  unfolding fill_found
  fill_found-other name other none cfg far = Ensures-pure cfg (λ w h. refl)
  fill_found-other name other (some ws) cfg far =
      fill_entry-other name other (workspace_credential_mode ws) cfg far

  fill_visit-Visited :
      {Q : W → Type 0} (desired : Dict Workspace) (name n : Text) (cfg : Config)
      → (name == n) ≡ true
      → Ensures Q (fill_found load write U S P O n (lookup n desired) cfg) (λ next _.
        Visited U S P name (lookup name desired) (entries name cfg) (entries name next))
  fill_visit-Visited {Q} desired name n cfg same =
      subst
        (λ m. Ensures Q (fill_found load write U S P O m (lookup m desired) cfg) (λ next _.
          Visited U S P name (lookup name desired) (entries name cfg) (entries name next)))
        (eq→≡ name n same) (fill_found-Visited name (lookup name desired) cfg)

  -- What the loop does to the entries of a name.
  pub fill-Filled :
      {Q : W → Type 0} (desired : Dict Workspace) (names : List Text) (name : Text) (cfg : Config)
      → Ensures Q (fill load write U S P O desired names cfg) (λ next _.
        Filled U S P name
          (lookup name desired)
          (is_listed name names)
          (entries name cfg)
          (entries name next))
  unfolding fill
  fill-Filled desired [] name cfg = Ensures-pure cfg (λ w h. refl)
  fill-Filled desired (n ∷ names) name cfg = elim (Bool-cases (name == n)) [
    | inl same ↦ Ensures-bind _ _ (fill_visit-Visited desired name n cfg same) (λ next. record {
      at = λ w v a e. rw same (
          Visited-trans U S P name (lookup name desired) (is_listed name names) (entries name cfg)
            (entries name next) (entries name a) v
            ((fill-Filled {Q = λ _. Unit {0}} desired names name next).at w tt a e));
    })
    | inr far ↦ Ensures-bind _ _ (fill_found-other name n (lookup n desired) cfg far) (λ next.
        record {
          at = λ w v a e. rw far (
              Filled-from U S P name (lookup name desired) (is_listed name names) (entries name cfg)
                (entries name next) (entries name a) v
                ((fill-Filled {Q = λ _. Unit {0}} desired names name next).at w tt a e));
        })
  ]
