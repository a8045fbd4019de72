-- ===== src/Controller/Env.antt =====
-- internal/controller/kubernetes/controller.go: the fields of `Reconciler`, and the packages that
-- it calls, as a parameter.
use dbaas.Prelude.{Bool, List}
use dbaas.Prelude.Text.{Text}
use dbaas.Exec.{Result}
use dbaas.Url.{UrlPackage}
use dbaas.Cluster.{RestConfig, Kubernetes, Condition, Document}

pub record Reconciler : Type 0 where
  pub kcp_config : RestConfig
  pub consumers_workspace : Text
  pub proxy_base_url : Text

-- `statusAnnotation`
pub record StatusAnnotation : Type 0 where
  pub phase : Text
  pub ready : Bool
  pub url : Text
  pub mounted_workspace : Text

-- Code outside the repository without a state: `sha1.Sum`, `net/url`, `json.Marshal`,
-- `clientcmd.RESTConfigFromKubeConfig`, `meta.IsStatusConditionTrue`, the three functions of
-- controllerutil on finalizers, and the YAML decoder: what its calls give, up to the end of the
-- stream.
pub record Packages : Type 0 where
  pub sha1 : Text → Text
  pub url : UrlPackage
  pub marshal : StatusAnnotation → Result Text
  pub rest_config : Text → Result RestConfig
  pub is_status_condition_true : List Condition → Text → Bool
  pub contains_finalizer : Kubernetes → Text → Bool
  pub add_finalizer : Kubernetes → Text → Kubernetes × Bool
  pub remove_finalizer : Kubernetes → Text → Kubernetes × Bool
  pub decode : Text → List (Result Document)
