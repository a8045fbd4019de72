-- ===== src/Provisioner/Stays/Prepared.antt =====
-- The bindings and the credentials of a workspace stay where every object is kept.
use dbaas.Prelude.{List, [], ◌∷◌, ◌≡◌, ◌≢◌, refl, sym}
use mathlib.Core.Path.{subst}
use dbaas.Exec.{Exec}
use dbaas.Exec.Keeps.{Keeps, Keeps-×}
use dbaas.Cluster.{
  Server, Endpoint, Key, Kind, Object, workspace, api_binding, name_space, service_account, secret,
  cluster_role_binding, capi_cluster, mongodb, kubernetes,
}
use dbaas.Cluster.Lawful.{IsLawful}
use dbaas.Cluster.Lawful.Exists.{Exists}
use dbaas.Provisioner.Bindings.Laws.{AllBound}
use dbaas.Provisioner.Credentials.Laws.{IsProvisioned}
use dbaas.Provisioner.Env.{Provisioner, WorkspaceBinding, cluster_key}
use dbaas.Provisioner.Stays.{Test, Kept}

-- The kinds that nothing but the setup of a workspace changes in it.
abbrev pub IsLeft : Kind → Type 0
IsLeft workspace = ⊥
IsLeft capi_cluster = ⊥
IsLeft mongodb = ⊥
IsLeft kubernetes = ⊥
IsLeft _ = Unit

-- Where the setup of a workspace leaves its objects.
abbrev pub InSetup : Endpoint → Kind → Key → Type 0
InSetup client k key = IsLeft k × (key.endpoint ≡ client)

pub IsLeft-apart : (k k' : Kind) → IsLeft k → ¬ IsLeft k' → k' ≢ k
IsLeft-apart k k' left other e = other (subst IsLeft (sym e) left)

-- No object of the kind Kubernetes is among them.
pub InSetup-ne-kubernetes :
    (client : Endpoint) (k : Kind) (key : Key) → InSetup client k key → k ≢ kubernetes
InSetup-ne-kubernetes client k key here e = IsLeft-apart k kubernetes here.0 (λ n. n) (sym e)

-- What the setup of a workspace leaves in it stays there, as long as every object that the program
-- creates is kept.
module _ {W A : Type 0} (S : Server W) (L : IsLawful S) (m : Exec W A) (P : Provisioner)
    (client : Endpoint)
    (f : (k : Kind) (key : Key) → InSetup client k key → Keeps (Kept S L k key) m) where
  Keeps-plain :
      (k : Kind) (key : Key)
      → InSetup client k key
      → ((o : Object k) → Test k o)
      → Keeps (Exists S L k key) m
  Keeps-plain k key far given = record {
    at = λ w (o, h). let (x, e, t) = (f k key far).at w (o, h, given o) in (x, e);
  }

  pub Keeps-AllBound : (bs : List WorkspaceBinding) → Keeps (AllBound S L P client bs) m
  Keeps-AllBound [] = record { at = λ w h. h }
  Keeps-AllBound (b ∷ bs) =
      Keeps-× (Keeps-plain api_binding (cluster_key client b.name) (tt, refl) (λ o. tt))
        (Keeps-AllBound bs)

  pub Keeps-prepared :
      Keeps (λ w. AllBound S L P client P.bindings w × IsProvisioned S L client w) m
  Keeps-prepared = Keeps-× (Keeps-AllBound P.bindings) (
      Keeps-×
        (Keeps-×
          (Keeps-× (Keeps-plain name_space _ (tt, refl) (λ o. tt))
            (Keeps-plain service_account _ (tt, refl) (λ o. tt)))
          (Keeps-plain secret _ (tt, refl) (λ o. tt)))
        (f cluster_role_binding _ (tt, refl)))
