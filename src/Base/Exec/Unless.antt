-- ===== src/Base/Exec/Unless.antt =====
-- Actions that leave a part of the state as it is, unless something holds.
use breez_sdk_liquid.Base.Result.{Result, ok, err}
use breez_sdk_liquid.Base.Exec.{Exec, lift, done, fail, when, guard, ◌>>=◌, ◌>>◌}
use breez_sdk_liquid.Base.Exec.Keeps.{Keeps, Keeps-done, Keeps-fail}
use mathlib.Core.Path.{◌≡◌, refl, ◌∙◌}
use mathlib.Core.Logic.{◌⊎◌, inl, inr}
use mathlib.Core.Bool.{Bool, true, false}

-- The part of the state that `part` reads is as before, or `P` holds.
pub record Unless {E S V A : Type 0} (P : Type 0) (part : S → V) (action : Exec E S A)
    : Type 0 where
  pub at : (s : S) → (part (action s).1 ≡ part s) ⊎ P

module _ {E S V : Type 0} {P : Type 0} {part : S → V} where
  pub Unless-Keeps : {A : Type 0} (action : Exec E S A) → Keeps part action → Unless P part action
  Unless-Keeps action h = record { at = λ s. inl (h.at s) }

  pub Unless-holds : {A : Type 0} (action : Exec E S A) → P → Unless P part action
  Unless-holds action p = record { at = λ s. inr p }

  pub Unless-when :
      (test : Bool) (action : Exec E S (Unit {0}))
      → (test ≡ true → Unless P part action)
      → Unless P part (when test action)
  unfolding when
  Unless-when true action h = h refl
  Unless-when false action h = Unless-Keeps (done tt) (Keeps-done tt)

carry : {V P : Type 0} {u v w : V} → (u ≡ v) ⊎ P → v ≡ w → (u ≡ w) ⊎ P
carry (inl e) d = inl (e ∙ d)
carry (inr p) d = inr p

module _ {E S V A B : Type 0} {P : Type 0} {part : S → V} where
  -- The rest may use that the first part did not fail.
  pub Unless-lift :
      (result : Result E A) (next : A → Exec E S B)
      → ((value : A) → result ≡ ok value → Unless P part (next value))
      → Unless P part (lift result >>= next)
  unfolding ◌>>=◌
  Unless-lift (ok value) next h = h value refl
  Unless-lift (err failure) next h = Unless-Keeps (fail failure) (Keeps-fail failure)

  pub Unless-bind :
      (action : Exec E S A) (next : A → Exec E S B)
      → Keeps part action
      → ((value : A) → Unless P part (next value))
      → Unless P part (action >>= next)
  unfolding ◌>>=◌
  Unless-bind action next h k = record {
    at = λ s. carry ((Unless-lift (action s).0 next (λ value e. k value)).at (action s).1) (h.at s);
  }

module _ {E S V B : Type 0} {P : Type 0} {part : S → V} where
  pub Unless-guard :
      (test : Bool) (failure : E) (next : Unit {0} → Exec E S B)
      → (test ≡ true → Unless P part (next tt))
      → Unless P part (guard test failure >>= next)
  unfolding ◌>>=◌
  Unless-guard true failure next h = h refl
  Unless-guard false failure next h = Unless-Keeps (fail failure) (Keeps-fail failure)

module _ {E S V A B C : Type 0} where
  stops :
      (part : S → V) (result : Result E A) (failure : E) (next : B → Exec E S C) (s : S)
      → part (((lift result >> fail failure) >>= next) s).1 ≡ part s
  unfolding ◌>>=◌
  stops part (ok value) failure next s = refl
  stops part (err e) failure next s = refl

  -- What follows a failure is not run.
  pub Keeps-failed :
      {part : S → V} (action : Exec E S A) (failure : E) (next : B → Exec E S C)
      → Keeps part action
      → Keeps part ((action >> fail failure) >>= next)
  unfolding ◌>>=◌
  Keeps-failed {part} action failure next h = record {
    at = λ s. stops part (action s).0 failure next (action s).1 ∙ h.at s;
  }
