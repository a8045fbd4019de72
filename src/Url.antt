-- ===== src/Url.antt =====
-- Go's `net/url`, which is a parameter: `url.Parse` and `URL.String` with the fields of a URL that
-- the program reads or writes.
use dbaas.Prelude.{[]}
use dbaas.Prelude.Text.{Text}
use dbaas.Exec.{Result}

pub record Url : Type 0 where
  pub scheme : Text
  pub user : Text
  pub host : Text
  pub path : Text
  pub raw_query : Text
  pub fragment : Text

pub record UrlPackage : Type 0 where
  pub parse : Text → Result Url
  pub print : Url → Text

-- The scheme and the host alone: the path, the query and the fragment are cleared.
unfoldable pub base_of : Url → Url
base_of u = record u { path = []; raw_query = []; fragment = [] }
