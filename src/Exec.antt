-- ===== src/Exec.antt =====
-- Go's `error` values, and code that calls remote servers: a state in, a result and a state out.
pub mod Keeps
pub mod Ensures
use dbaas.Prelude.{Bool, true, false, List, ◌≡◌, ◌⊎◌, inl, inr, refl}
use dbaas.Prelude.Text.{Text}
use Prim.Native.String.{String}

-- An error: the two API errors that the program tells apart, any other error from outside the
-- program, and what `fmt.Errorf` makes with and without `%w` (the format and its other operands).
pub data Error : Type 0 where
  not_found : Text → Error
  already_exists : Text → Error
  failure : Text → Error
  errorf : String → List Text → Error
  wrap : String → List Text → Error → Error

-- `apierrors.IsNotFound`, which looks through `%w`.
unfoldable pub is_not_found : Error → Bool
is_not_found (not_found n) = true
is_not_found (already_exists n) = false
is_not_found (failure m) = false
is_not_found (errorf f args) = false
is_not_found (wrap f args e) = is_not_found e

-- `apierrors.IsAlreadyExists`
unfoldable pub is_already_exists : Error → Bool
is_already_exists (not_found n) = false
is_already_exists (already_exists n) = true
is_already_exists (failure m) = false
is_already_exists (errorf f args) = false
is_already_exists (wrap f args e) = is_already_exists e

pub data Result (A : Type 0) : Type 0 where
  ok : A → Result A
  err : Error → Result A

-- A step that may change the world `W` and may fail; what was done before an error stays done.
abbrev pub Exec : Type 0 → Type 0 → Type 0
Exec W A = W → Result A × W

abbrev pub wrap_result : {A : Type 0} → String → List Text → Result A → Result A
wrap_result f args (ok a) = ok a
wrap_result f args (err e) = err (wrap f args e)

module _ {W A : Type 0} where
  unfoldable pub pure : A → Exec W A
  pure a w = (ok a, w)

  unfoldable pub raise : Error → Exec W A
  raise e w = (err e, w)

  unfoldable pub lift : Result A → Exec W A
  lift r w = (r, w)

  -- The result is a value: the caller looks at the error itself.
  unfoldable pub attempt : Exec W A → Exec W (Result A)
  attempt m w = (ok (m w).0, (m w).1)

  -- `if err != nil { return fmt.Errorf(f, args..., err) }`
  unfoldable pub or_wrap : String → List Text → Exec W A → Exec W A
  or_wrap f args m w = (wrap_result f args (m w).0, (m w).1)

module _ {W A B : Type 0} where
  abbrev pub continue : Result A → (A → Exec W B) → Exec W B
  continue (ok a) f w = f a w
  continue (err e) f w = (err e, w)

  infixl 5 ◌>>=◌
  -- To open this is to open the five steps above.
  unfoldable pub ◌>>=◌ : Exec W A → (A → Exec W B) → Exec W B
  unfolding pure raise lift attempt or_wrap
  ◌>>=◌ m f w = continue (m w).0 f (m w).1

infixl 5 ◌>>◌
abbrev pub ◌>>◌ : {W B : Type 0} → Exec W (Unit {0}) → Exec W B → Exec W B
m >> n = m >>= λ _. n

-- To split on a computed result and keep the equation.
pub Result-cases :
    {A : Type 0} (r : Result A) → ((a : A) × (r ≡ ok a)) ⊎ ((e : Error) × (r ≡ err e))
Result-cases (ok a) = inl (a, refl)
Result-cases (err e) = inr (e, refl)
