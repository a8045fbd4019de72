-- ===== src/Exec/Ensures.antt =====
-- What holds of the value and the world after a step that succeeds, from what holds before it.
use dbaas.Prelude.{◌≡◌, refl, sym, Bool, true, false, List, if◌then◌else◌}
use dbaas.Prelude.Text.{Text}
use Prim.Native.String.{String}
use mathlib.Core.Path.{subst}
use dbaas.Exec.{
  Error, Result, ok, err, Exec, pure, raise, lift, or_wrap, wrap_result, continue, ◌>>=◌,
}
use dbaas.Exec.Keeps.{Keeps}

pub record Ensures {W A : Type 0} (P : W → Type 0) (m : Exec W A) (Q : A → W → Type 0)
    : Type 0 where
  pub at : (w : W) → P w → (a : A) → (m w).0 ≡ ok a → Q a (m w).1

pub ok-injective : {A : Type 0} {a b : A} → ok a ≡ ok b → a ≡ b
ok-injective e = cc

-- A chain that succeeds has a first step that succeeds.
pub bind-ok :
    {W A B : Type 0} (m : Exec W A) (f : A → Exec W B) (w : W) (b : B)
    → ((m >>= f) w).0 ≡ ok b
    → (a : A) × ((m w).0 ≡ ok a) × ((f a (m w).1).0 ≡ ok b)
unfolding ◌>>=◌
bind-ok {A} {B} m f w b = go (m w).0 refl
  where
    go :
        (r : Result A)
        → (m w).0 ≡ r
        → (continue r f (m w).1).0 ≡ ok b
        → (a : A) × ((m w).0 ≡ ok a) × ((f a (m w).1).0 ≡ ok b)
    go (ok a) e h = (a, e, h)
    go (err x) e h = cc

module _ {W A B : Type 0} {P : W → Type 0} {R : A → W → Type 0} {Q : B → W → Type 0} where
  pub Ensures-bind :
      (m : Exec W A) (f : A → Exec W B)
      → Ensures P m R
      → ((a : A) → Ensures (R a) (f a) Q)
      → Ensures P (m >>= f) Q
  unfolding ◌>>=◌
  Ensures-bind m f em ef = record { at = λ w h. go (m w).0 (m w).1 (em.at w h) }
    where
      go :
          (r : Result A) (w : W)
          → ((a : A) → r ≡ ok a → R a w)
          → (b : B) → (continue r f w).0 ≡ ok b
          → Q b (continue r f w).1
      go (ok a) w h b e = (ef a).at w (h a refl) b e
      go (err x) w h b e = cc

module _ {W A : Type 0} {P : W → Type 0} where
  pub Ensures-or_wrap :
      {Q : A → W → Type 0} (f : String) (args : List Text) (m : Exec W A)
      → Ensures P m Q
      → Ensures P (or_wrap f args m) Q
  unfolding or_wrap
  Ensures-or_wrap {Q} f args m em = record { at = λ w h a e. em.at w h a (unwrap (m w).0 a e) }
    where
      unwrap : (r : Result A) (a : A) → wrap_result f args r ≡ ok a → r ≡ ok a
      unwrap (ok b) a e = e
      unwrap (err x) a e = cc

  pub Ensures-raise : {Q : A → W → Type 0} (e : Error) → Ensures P (raise e) Q
  unfolding raise
  Ensures-raise e = record { at = λ w h a x. cc }

  pub Ensures-pure : {Q : A → W → Type 0} (a : A) → ((w : W) → P w → Q a w) → Ensures P (pure a) Q
  unfolding pure
  Ensures-pure {Q} a q = record { at = λ w h b e. go w h b (e) }
    where
      go : (w : W) → P w → (b : A) → ok a ≡ ok b → Q b w
      go w h b e = subst (λ x. Q x w) (ok-injective e) (q w h)

  pub Ensures-lift : (r : Result A) → Ensures P (lift r) (λ a w. (r ≡ ok a) × P w)
  unfolding lift
  Ensures-lift r = record { at = λ w h a e. (e, h) }

  pub Ensures-if :
      {Q : A → W → Type 0} (b : Bool) (m n : Exec W A)
      → (b ≡ true → Ensures P m Q)
      → (b ≡ false → Ensures P n Q)
      → Ensures P (if b then m else n) Q
  Ensures-if true m n em en = em refl
  Ensures-if false m n em en = en refl

  -- A step that keeps a predicate ensures it.
  pub Ensures-Keeps : (m : Exec W A) → Keeps P m → Ensures P m (λ _. P)
  Ensures-Keeps m k = record { at = λ w h a e. k.at w h }

module _ {W A : Type 0} {P : W → Type 0} where
  pub Ensures-any : (m : Exec W A) → Ensures P m (λ _ _. Unit {0})
  Ensures-any m = record { at = λ w h a e. tt }

module _ {W A : Type 0} {P P' : W → Type 0} {m : Exec W A} {Q : A → W → Type 0} where
  pub Ensures-weaken : ((w : W) → P w → P' w) → Ensures P' m Q → Ensures P m Q
  Ensures-weaken f e = record { at = λ w h. e.at w (f w h) }

module _ {W A : Type 0} {P P' : W → Type 0} {m : Exec W A} {Q Q' : A → W → Type 0} where
  pub Ensures-and :
      Ensures P m Q → Ensures P' m Q' → Ensures (λ w. P w × P' w) m (λ a w. Q a w × Q' a w)
  Ensures-and e e' = record { at = λ w h a r. (e.at w h.0 a r, e'.at w h.1 a r) }

module _ {W A : Type 0} {P : W → Type 0} {m : Exec W A} {Q : A → W → Type 0} where
  -- What the step keeps holds beside what it ensures.
  pub Ensures-also : Keeps P m → Ensures P m Q → Ensures P m (λ a w. P w × Q a w)
  Ensures-also k e = record { at = λ w h a r. (k.at w h, e.at w h a r) }

module _ {W A B : Type 0} {P : W → Type 0} {Q : B → W → Type 0} where
  -- A value that is known beforehand is passed on.
  pub Ensures-known :
      (f : String) (args : List Text) (r : Result A) (a : A) (g : A → Exec W B)
      → r ≡ ok a
      → Ensures P (g a) Q
      → Ensures P (or_wrap f args (lift r) >>= g) Q
  unfolding ◌>>=◌ or_wrap lift
  Ensures-known f args (ok b) a g known eg =
      subst (λ x. Ensures P (g x) Q) (ok-injective (sym known)) (record { at = eg.at })
  Ensures-known f args (err e) a g known eg = cc

module _ {W A X : Type 0} {P : W → Type 0} {m : Exec W A} {Q : X → A → W → Type 0} where
  -- A family of statements is ensured as a whole.
  pub Ensures-all : ((x : X) → Ensures P m (Q x)) → Ensures P m (λ a w. (x : X) → Q x a w)
  Ensures-all e = record { at = λ w h a r x. (e x).at w h a r }

module _ {W A X : Type 0} {P : W → Type 0} {m : Exec W A} {Q : A → W → Type 0} where
  -- A fact that is not about the world.
  pub Ensures-given : (X → Ensures P m Q) → Ensures (λ w. X × P w) m Q
  Ensures-given e = record { at = λ w (x, h). (e x).at w h }
