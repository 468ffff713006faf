-- ===== src/Base/Exec/Reads.antt =====
-- Actions that leave the state as it is, and what follows such an action.
use breez_sdk_liquid.Base.Result.{Result, ok, err}
use breez_sdk_liquid.Base.Exec.{Exec, lift, done, fail, guard, ◌>>=◌, bind-done, bind-fail}
use mathlib.Core.Path.{◌≡◌, refl, sym, subst}
use mathlib.Core.Logic.{◌⊎◌, inl, inr}
use mathlib.Core.Bool.{Bool, true, false}

-- From this state the action fails or returns, and the state stays.
abbrev pub Reads : {E S A : Type 0} → Exec E S A → S → Type 0
Reads {E} {S} {A} action s =
    ((failure : E) × (action s ≡ (err failure, s))) ⊎ ((value : A) × (action s ≡ (ok value, s)))

module _ {E S A : Type 0} where
  pub lift-Reads : (result : Result E A) (s : S) → Reads (lift result) s
  unfolding lift
  lift-Reads (err failure) s = inl (failure, refl)
  lift-Reads (ok value) s = inr (value, refl)

  pub done-Reads : (value : A) (s : S) → Reads {E = E} (done value) s
  unfolding done
  done-Reads value s = inr (value, refl)

pub guard-Reads : {E S : Type 0} (test : Bool) (failure : E) (s : S) → Reads (guard test failure) s
unfolding guard fail done
guard-Reads true failure s = inr (tt, refl)
guard-Reads false failure s = inl (failure, refl)

module _ {E S A B : Type 0} where
  -- A statement of how the whole ends needs a proof for a failure at once, and one for the rest.
  pub read_then :
      (P : Result E B × S → Type 0) (action : Exec E S A) (next : A → Exec E S B) (s : S)
      → Reads action s
      → ((failure : E) → P (err failure, s))
      → ((value : A) → action s ≡ (ok value, s) → P (next value s))
      → P ((action >>= next) s)
  read_then P action next s (inl (failure, e)) stop go =
      subst P (sym (bind-fail action next s e)) (stop failure)
  read_then P action next s (inr (value, e)) stop go =
      subst P (sym (bind-done action next s e)) (go value e)
