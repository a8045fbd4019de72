-- ===== src/Controller/Names.antt =====
-- internal/controller/kubernetes/controller.go: `deriveMountedWorkspaceName`, `firstNonEmpty`.
use Prim.Native.Nat.{◌/◌, ◌%◌}
use dbaas.Prelude.{ℕ, zero, suc, ◌+◌, ◌||◌, List, [], ◌∷◌, ◌++◌, if◌then◌else◌, ltb}
use dbaas.Prelude.Text.{Text, codes, slash, ◌==◌}

-- `firstNonEmpty(values...)`
unfoldable pub first_non_empty : List Text → Text
first_non_empty [] = []
first_non_empty ([] ∷ values) = first_non_empty values
first_non_empty ((c ∷ s) ∷ values) = c ∷ s

-- A digit of `encoding/hex`.
unfoldable pub hex_digit : ℕ → ℕ
hex_digit d = if ltb d 10 then b'0' + d else 87 + d

-- `hex.EncodeToString`
unfoldable pub hex : Text → Text
unfolding hex_digit
hex [] = []
hex (b ∷ s) = hex_digit (b / 16) ∷ hex_digit (b % 16) ∷ hex s

abbrev pub take : ℕ → Text → Text
take zero s = []
take (suc n) [] = []
take (suc n) (x ∷ s) = x ∷ take n s

abbrev pub default_namespace : Text
default_namespace = codes "default"

-- The argument is `sha1.Sum`.
module _ (sha1 : Text → Text) where
  -- What is put behind the name of an object that is not in the default namespace.
  unfoldable pub name_suffix : Text → Text → Text
  name_suffix remote_name remote_namespace =
      b'-' ∷ hex (take 4 (sha1 (remote_namespace ++ slash ∷ remote_name)))

  -- `deriveMountedWorkspaceName(remoteName, remoteNamespace)`
  unfoldable pub derive_mounted_workspace_name : Text → Text → Text
  unfolding name_suffix
  derive_mounted_workspace_name remote_name remote_namespace =
      if remote_namespace == [] || remote_namespace == default_namespace
      then remote_name
      else remote_name ++ name_suffix remote_name remote_namespace
