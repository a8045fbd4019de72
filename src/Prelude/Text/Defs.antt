-- ===== src/Prelude/Text/Defs.antt =====
-- `strings.HasPrefix`, `TrimPrefix`, `Cut`, `Split`, `TrimSpace`, `Trim` and their kin over bytes.
use Prim.Native.Nat.{ℕ, zero, suc, ◌+◌}
use Prim.Native.Char.{code}
use Prim.Native.String.{String}
use mathlib.Core.Bool.{Bool, true, false, ◌&&◌, ◌||◌}
use mathlib.Core.Option.{Option, none, some}
use mathlib.Core.List.{List, [], ◌∷◌}
use package.dbaas.Prelude.Tests.{leb, byte_eq, if◌then◌else◌}

-- A Go string: its bytes.
abbrev pub Text : Type 0
Text = List ℕ

-- The bytes of an ASCII literal.
abbrev pub codes : String → Text
codes String.[] = []
codes (String.◌∷◌ c s) = code c ∷ codes s

abbrev pub slash : ℕ
slash = b'/'

infix 50 ◌==◌
unfoldable pub ◌==◌ : Text → Text → Bool
[] == [] = true
[] == (y ∷ t) = false
(x ∷ s) == [] = false
(x ∷ s) == (y ∷ t) = byte_eq x y && s == t

-- What stands behind a prefix.
unfoldable pub strip_prefix : Text → Text → Option Text
strip_prefix s [] = some s
strip_prefix [] (p ∷ ps) = none
strip_prefix (x ∷ s) (p ∷ ps) = let rest = strip_prefix s ps in if byte_eq x p then rest else none

-- `strings.HasPrefix(s, prefix)`
unfoldable pub has_prefix : Text → Text → Bool
unfolding strip_prefix
has_prefix s prefix = elim (strip_prefix s prefix) [ some rest ↦ true | none ↦ false ]

-- `strings.TrimPrefix(s, prefix)`
unfoldable pub trim_prefix : Text → Text → Text
unfolding strip_prefix
trim_prefix s prefix = elim (strip_prefix s prefix) [ some rest ↦ rest | none ↦ s ]

-- `strings.HasSuffix(s, c)` for a text of one byte.
unfoldable pub ends_with : Text → ℕ → Bool
ends_with [] c = false
ends_with (x ∷ []) c = byte_eq x c
ends_with (x ∷ y ∷ s) c = ends_with (y ∷ s) c

-- `strings.TrimSuffix(s, c)` for a text of one byte.
unfoldable pub trim_suffix : Text → ℕ → Text
trim_suffix [] c = []
trim_suffix (x ∷ []) c = if byte_eq x c then [] else x ∷ []
trim_suffix (x ∷ y ∷ s) c = x ∷ trim_suffix (y ∷ s) c

-- `strings.Cut(s, c)`: the text before the first `c` and the text behind it, if there is a `c`.
unfoldable pub cut : Text → ℕ → Text × Option Text
cut [] c = ([], none)
cut (x ∷ s) c =
    let (before, after) = cut s c in if byte_eq x c then ([], some s) else (x ∷ before, after)

-- `strings.Split(s, c)`: the part before the first `c`, and the parts behind it.
unfoldable pub split_parts : Text → ℕ → Text × List Text
split_parts [] c = ([], [])
split_parts (x ∷ s) c =
    let (part, parts) = split_parts s c in
    if byte_eq x c then ([], part ∷ parts) else (x ∷ part, parts)

unfoldable pub split : Text → ℕ → List Text
unfolding split_parts
split s c = let (part, parts) = split_parts s c in part ∷ parts

-- `strings.SplitN(s, c, n)`: at most `n` parts, of which the last is not cut.
unfoldable pub split_n : Text → ℕ → ℕ → List Text
unfolding cut
split_n s c zero = []
split_n s c (suc zero) = s ∷ []
split_n s c (suc (suc n)) = elim (cut s c).1 [
  | some after ↦ (cut s c).0 ∷ split_n after c (suc n)
  | none ↦ s ∷ []
]

-- The leading bytes that a test accepts are dropped.
unfoldable pub drop_while : (ℕ → Bool) → Text → Text
drop_while p [] = []
drop_while p (x ∷ s) = let rest = drop_while p s in if p x then rest else x ∷ s

-- The trailing bytes that a test accepts are dropped.
unfoldable pub drop_while_end : (ℕ → Bool) → Text → Text
drop_while_end p [] = []
drop_while_end p (x ∷ s) = elim (drop_while_end p s) [
  | [] ↦ if p x then [] else x ∷ []
  | y ∷ t ↦ x ∷ y ∷ t
]

-- `strings.Trim` and `strings.TrimSpace`: both ends lose the bytes that a test accepts.
unfoldable pub trim : (ℕ → Bool) → Text → Text
unfolding drop_while drop_while_end
trim p s = drop_while_end p (drop_while p s)

-- The white space of ASCII: tab, newline, vertical tab, form feed, carriage return and blank.
unfoldable pub is_space : ℕ → Bool
is_space c = leb 9 c && leb c 13 || byte_eq c b' '

-- An ASCII letter in lower case.
unfoldable pub to_lower : ℕ → ℕ
to_lower c = if leb b'A' c && leb c b'Z' then c + 32 else c

-- `strings.EqualFold` of ASCII texts.
unfoldable pub equal_fold : Text → Text → Bool
unfolding to_lower
equal_fold [] [] = true
equal_fold [] (y ∷ t) = false
equal_fold (x ∷ s) [] = false
equal_fold (x ∷ s) (y ∷ t) = byte_eq (to_lower x) (to_lower y) && equal_fold s t

-- `strings.Contains(s, part)`
unfoldable pub contains : Text → Text → Bool
unfolding has_prefix
contains [] part = has_prefix [] part
contains (x ∷ s) part = has_prefix (x ∷ s) part || contains s part

-- Whether a byte occurs.
unfoldable pub has_byte : ℕ → Text → Bool
has_byte c [] = false
has_byte c (x ∷ s) = byte_eq x c || has_byte c s
