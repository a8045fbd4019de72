-- ===== src/Prelude/Text/Laws.antt =====
-- Laws of the text functions.
use mathlib.Core.Path.{◌≡◌, refl, ap}
use mathlib.Core.Logic.{◌↔◌}
use mathlib.Core.Bool.{true, false}
use mathlib.Core.Option.{none, some}
use mathlib.Core.List.{[], ◌∷◌, ◌++◌}
use native.Mathlib.Omega.{arith}
use Prim.Native.Nat.{ℕ}
use package.dbaas.Prelude.Text.Defs.{
  Text, ◌==◌, strip_prefix, has_prefix, trim_prefix, cut, has_byte, ends_with, trim_suffix,
}

pub eq_refl : (s : Text) → (s == s) ≡ true
unfolding ◌==◌
eq_refl [] = refl
eq_refl (x ∷ s) = ground (arith, eq_refl s)

pub eq→≡ : (s t : Text) → (s == t) ≡ true → s ≡ t
unfolding ◌==◌
eq→≡ [] [] h = refl
eq→≡ [] (y ∷ t) h = cc
eq→≡ (x ∷ s) [] h = cc
eq→≡ (x ∷ s) (y ∷ t) h = ground (arith, eq→≡ s t)

-- `==` decides equality.
pub eq_iff : (s t : Text) → ((s == t) ≡ true) ↔ (s ≡ t)
eq_iff s t = (eq→≡ s t, λ e. rw e (eq_refl t))

pub strip_prefix-append : (p s : Text) → strip_prefix (p ++ s) p ≡ some s
unfolding strip_prefix
strip_prefix-append [] s = refl
strip_prefix-append (x ∷ p) s = ground (arith, strip_prefix-append p s)

pub trim_prefix-append : (p s : Text) → trim_prefix (p ++ s) p ≡ s
unfolding trim_prefix
trim_prefix-append p s = ground (arith, strip_prefix-append p s)

pub cut-append : (c : ℕ) (p s : Text) → has_byte c p ≡ false → cut (p ++ c ∷ s) c ≡ (p, some s)
unfolding cut has_byte
cut-append c [] s h = ground arith
cut-append c (x ∷ p) s h = ground (arith, cut-append c p s)

-- Without the separator there is one part.
pub cut-none : (c : ℕ) (s : Text) → has_byte c s ≡ false → cut s c ≡ (s, none)
unfolding cut has_byte
cut-none c [] h = refl
cut-none c (x ∷ s) h = ground (arith, cut-none c s)

-- A text that ends in `c` is its trimmed form with a `c` behind it.
pub trim_suffix-ends_with :
    (s : Text) (c : ℕ) → ends_with s c ≡ true → s ≡ trim_suffix s c ++ c ∷ []
unfolding ends_with trim_suffix
trim_suffix-ends_with [] c h = cc
trim_suffix-ends_with (x ∷ []) c h = ground arith
trim_suffix-ends_with (x ∷ y ∷ s) c h = ap (λ t. x ∷ t) (trim_suffix-ends_with (y ∷ s) c h)

-- Any other text is its trimmed form.
pub trim_suffix_same : (s : Text) (c : ℕ) → ends_with s c ≡ false → trim_suffix s c ≡ s
unfolding ends_with trim_suffix
trim_suffix_same [] c h = refl
trim_suffix_same (x ∷ []) c h = ground arith
trim_suffix_same (x ∷ y ∷ s) c h = ap (λ t. x ∷ t) (trim_suffix_same (y ∷ s) c h)

pub trim_prefix_same : (s p : Text) → has_prefix s p ≡ false → trim_prefix s p ≡ s
unfolding has_prefix trim_prefix
trim_prefix_same s p h = ground arith
