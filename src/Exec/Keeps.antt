-- ===== src/Exec/Keeps.antt =====
-- Predicates on the world that a step keeps, whether it fails or not: a rule for each way to build
-- a step.
use dbaas.Prelude.{Bool, true, false, List, if◌then◌else◌, ◌≡◌, refl}
use dbaas.Prelude.Text.{Text}
use Prim.Native.String.{String}
use dbaas.Exec.{Error, Result, ok, err, Exec, pure, raise, lift, attempt, or_wrap, ◌>>=◌, continue}

pub record Keeps {W A : Type 0} (P : W → Type 0) (m : Exec W A) : Type 0 where
  pub at : (w : W) → P w → P (m w).1

module _ {W A : Type 0} {P : W → Type 0} where
  pub Keeps-pure : (a : A) → Keeps P (pure a)
  unfolding pure
  Keeps-pure a = record { at = λ w h. h }

  pub Keeps-raise : (e : Error) → Keeps P (raise {A = A} e)
  unfolding raise
  Keeps-raise e = record { at = λ w h. h }

  pub Keeps-lift : (r : Result A) → Keeps P (lift r)
  unfolding lift
  Keeps-lift r = record { at = λ w h. h }

  pub Keeps-attempt : (m : Exec W A) → Keeps P m → Keeps P (attempt m)
  unfolding attempt
  Keeps-attempt m k = record { at = k.at }

  pub Keeps-or_wrap :
      (f : String) (args : List Text) (m : Exec W A) → Keeps P m → Keeps P (or_wrap f args m)
  unfolding or_wrap
  Keeps-or_wrap f args m k = record { at = k.at }

  pub Keeps-if : (b : Bool) (m n : Exec W A) → Keeps P m → Keeps P n → Keeps P (if b then m else n)
  Keeps-if true m n km kn = km
  Keeps-if false m n km kn = kn

module _ {W A : Type 0} {P : W → Type 0} where
  -- The test is known in either branch.
  pub Keeps-if_known :
      (b : Bool) (m n : Exec W A)
      → (b ≡ true → Keeps P m)
      → (b ≡ false → Keeps P n)
      → Keeps P (if b then m else n)
  Keeps-if_known true m n km kn = km refl
  Keeps-if_known false m n km kn = kn refl

module _ {W A : Type 0} {P Q : W → Type 0} {m : Exec W A} where
  pub Keeps-× : Keeps P m → Keeps Q m → Keeps (λ w. P w × Q w) m
  Keeps-× k l = record { at = λ w h. (k.at w h.0, l.at w h.1) }

module _ {W A B : Type 0} {P : W → Type 0} where
  pub Keeps-bind :
      (m : Exec W A) (f : A → Exec W B) → Keeps P m → ((a : A) → Keeps P (f a)) → Keeps P (m >>= f)
  unfolding ◌>>=◌
  Keeps-bind m f km kf = record { at = λ w h. go (m w).0 (m w).1 (km.at w h) }
    where
      go : (r : Result A) (w : W) → P w → P (continue r f w).1
      go (ok a) w h = (kf a).at w h
      go (err e) w h = h

module _ {W A B : Type 0} {P : W → Type 0} where
  -- What is known of the value of a first step that succeeds is passed on.
  pub Keeps-bind_known :
      (T : A → Type 0) (m : Exec W A) (f : A → Exec W B)
      → Keeps P m
      → ((w : W) → P w → (a : A) → (m w).0 ≡ ok a → T a)
      → ((a : A) → T a → Keeps P (f a))
      → Keeps P (m >>= f)
  unfolding ◌>>=◌
  Keeps-bind_known T m f km known kf = record {
    at = λ w h. go (m w).0 (m w).1 (known w h) (km.at w h);
  }
    where
      go : (r : Result A) (w : W) → ((a : A) → r ≡ ok a → T a) → P w → P (continue r f w).1
      go (ok a) w t h = (kf a (t a refl)).at w h
      go (err e) w t h = h

module _ {W A B : Type 0} {P : W → Type 0} where
  -- The caller looks at an answer, which came from some world.
  pub Keeps-bind_answer :
      (m : Exec W A) (f : Result A → Exec W B)
      → Keeps P m
      → ((r : Result A) (w : W) → (m w).0 ≡ r → Keeps P (f r))
      → Keeps P (attempt m >>= f)
  unfolding ◌>>=◌
  Keeps-bind_answer m f km kf = record { at = λ w h. (kf (m w).0 w refl).at (m w).1 (km.at w h) }

module _ {W A B : Type 0} {P : W → Type 0} where
  pub Keeps-bind_lifted :
      (f : String) (args : List Text) (r : Result A) (g : A → Exec W B)
      → ((a : A) → r ≡ ok a → Keeps P (g a))
      → Keeps P (or_wrap f args (lift r) >>= g)
  unfolding ◌>>=◌
  Keeps-bind_lifted f args (ok a) g kg = record { at = (kg a refl).at }
  Keeps-bind_lifted f args (err e) g kg = record { at = λ w h. h }

pub ruleset keeps_rules =
    (Keeps-pure, Keeps-raise, Keeps-lift, Keeps-attempt, Keeps-or_wrap, Keeps-if, Keeps-bind)
