-- ===== src/Web/Forwarded.antt =====
-- cmd/provisioner/main.go: the host that a request was sent to. Header values are ASCII, so the
-- white space and the letters of ASCII are all that `strings.TrimSpace` and `strings.EqualFold` meet.
use dbaas.Prelude.{List, [], ◌∷◌, Option, none, some, if◌then◌else◌}
use dbaas.Prelude.Text.{Text, codes, cut, split, trim, is_space, equal_fold}
use dbaas.Exec.{Result}
use dbaas.Url.{UrlPackage}
use dbaas.Provisioner.Host.{NetPackage, is_quote, external_base_url_for_host}

-- What the handlers read of an `http.Request`: the method, the path, the host, the two headers,
-- the values of the query and the value of the form. The path is clean and has no escapes.
pub record Request : Type 0 where
  pub method : Text
  pub path : Text
  pub host : Text
  pub forwarded : Text
  pub x_forwarded_host : Text
  pub success : Text
  pub error : Text
  pub form_name : Text

-- What stands behind a leading `host=`, in any case.
unfoldable pub after_host : Text → Option Text
after_host (a ∷ b ∷ c ∷ d ∷ e ∷ rest) =
    if equal_fold (a ∷ b ∷ c ∷ d ∷ e ∷ []) (codes "host=") then some rest else none
after_host _ = none

unfoldable pub host_of_part : Text → Option Text
host_of_part part = elim (after_host (trim is_space part)) [
  | none ↦ none
  | some value ↦ some (trim is_quote (trim is_space value))
]

-- The inner loop.
unfoldable pub host_of_parts : List Text → Option Text
host_of_parts [] = none
host_of_parts (part ∷ parts) = elim (host_of_part part) [
  | some host ↦ some host
  | none ↦ host_of_parts parts
]

-- The outer loop.
unfoldable pub host_of_entries : List Text → Option Text
host_of_entries [] = none
host_of_entries (entry ∷ entries) = elim (host_of_parts (split entry b';')) [
  | some host ↦ some host
  | none ↦ host_of_entries entries
]

abbrev pub or_empty : Option Text → Text
or_empty (some host) = host
or_empty none = []

-- `forwardedHeaderHost`
unfoldable pub forwarded_header_host : Text → Text
forwarded_header_host value = or_empty (host_of_entries (split value b','))

-- `firstForwardedHost`
unfoldable pub first_forwarded_host : Text → Text
first_forwarded_host [] = []
first_forwarded_host (c ∷ value) = trim is_space (cut (c ∷ value) b',').0

-- A host, or the next choice where it is empty.
abbrev pub or_next : Text → Text → Text
or_next [] next = next
or_next (c ∷ host) next = c ∷ host

-- `forwardedOrRequestHost`
unfoldable pub forwarded_or_request_host : Request → Text
forwarded_or_request_host r =
    or_next (forwarded_header_host r.forwarded)
      (or_next (first_forwarded_host r.x_forwarded_host) r.host)

-- `requestExternalBaseURL`
unfoldable pub request_external_base_url :
    UrlPackage → NetPackage → Request → Text → Text → Result Text
request_external_base_url U N r scheme port =
    external_base_url_for_host U N (forwarded_or_request_host r) scheme port
