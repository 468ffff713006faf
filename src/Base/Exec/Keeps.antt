-- ===== src/Base/Exec/Keeps.antt =====
-- Actions that leave a part of the state as it is, whether they return or fail.
use breez_sdk_liquid.Base.Result.{Result, ok, err, is_ok}
use native.Mathlib.Omega.{arith}
use breez_sdk_liquid.Base.Exec.{Exec, done, fail, lift, attempt, change, gets, when, guard, ◌>>=◌}
use mathlib.Core.Path.{◌≡◌, refl, ◌∙◌}
use mathlib.Core.Bool.{Bool, true, false}

-- The part of the state that `part` reads is as before.
pub record Keeps {E S V A : Type 0} (part : S → V) (action : Exec E S A) : Type 0 where
  pub at : (s : S) → part (action s).1 ≡ part s

module _ {E S V A : Type 0} {part : S → V} where
  pub Keeps-done : (value : A) → Keeps {E = E} part (done value)
  unfolding done
  Keeps-done value = record { at = λ s. refl }

  pub Keeps-fail : (failure : E) → Keeps {A = A} part (fail failure)
  unfolding fail
  Keeps-fail failure = record { at = λ s. refl }

  pub Keeps-lift : (result : Result E A) → Keeps part (lift result)
  unfolding lift
  Keeps-lift result = record { at = λ s. refl }

  pub Keeps-gets : (f : S → A) → Keeps {E = E} part (gets f)
  unfolding gets
  Keeps-gets f = record { at = λ s. refl }

  pub Keeps-attempt : (action : Exec E S A) → Keeps part action → Keeps part (attempt action)
  unfolding attempt
  Keeps-attempt action h = record { at = h.at }

module _ {E S V : Type 0} {part : S → V} where
  pub Keeps-change : (f : S → S) → ((s : S) → part (f s) ≡ part s) → Keeps {E = E} part (change f)
  unfolding change
  Keeps-change f h = record { at = h }

  pub Keeps-when :
      (test : Bool) (action : Exec E S (Unit {0}))
      → Keeps part action
      → Keeps part (when test action)
  unfolding when
  Keeps-when true action h = h
  Keeps-when false action h = Keeps-done tt

  pub Keeps-skip :
      (test : Bool) (action : Exec E S (Unit {0})) → test ≡ false → Keeps part (when test action)
  unfolding when
  Keeps-skip true action h = cc
  Keeps-skip false action h = Keeps-done tt

  pub Keeps-guard : (test : Bool) (failure : E) → Keeps part (guard test failure)
  unfolding guard
  Keeps-guard true failure = Keeps-done tt
  Keeps-guard false failure = Keeps-fail failure

module _ {E S V A B : Type 0} {part : S → V} where
  -- The rest may use that the first part did not fail.
  pub Keeps-bind-lift :
      (result : Result E A) (next : A → Exec E S B)
      → ((value : A) → result ≡ ok value → Keeps part (next value))
      → Keeps part (lift result >>= next)
  unfolding ◌>>=◌
  Keeps-bind-lift (ok value) next h = h value refl
  Keeps-bind-lift (err failure) next h = Keeps-fail failure

  -- What comes after a check that failed is not run.
  pub Keeps-refused :
      (result : Result E A) (next : A → Exec E S B)
      → is_ok result ≡ false
      → Keeps part (lift result >>= next)
  Keeps-refused result next e = Keeps-bind-lift result next (λ value good. absurd (ground arith))

  pub Keeps-bind :
      (action : Exec E S A) (next : A → Exec E S B)
      → Keeps part action
      → ((value : A) → Keeps part (next value))
      → Keeps part (action >>= next)
  unfolding ◌>>=◌
  Keeps-bind action next h k = record {
    at = λ s. (Keeps-bind-lift (action s).0 next (λ value e. k value)).at (action s).1 ∙ h.at s;
  }

pub ruleset keeps_rules = (
  Keeps-done, Keeps-fail, Keeps-lift, Keeps-gets, Keeps-attempt, Keeps-when, Keeps-guard,
  Keeps-bind,
)
