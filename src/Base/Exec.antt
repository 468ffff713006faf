-- ===== src/Base/Exec.antt =====
-- Code that changes a state and may fail. What was written before a failure stays written, so that
-- the state comes back beside the error too.
pub mod Keeps
pub mod Reads
pub mod Unless
pub mod Follows
use breez_sdk_liquid.Base.Result.{Result, ok, err}
use mathlib.Core.Path.{◌≡◌, ap}
use mathlib.Core.Bool.{Bool, true, false}

abbrev pub Exec : Type 0 → Type 0 → Type 0 → Type 0
Exec E S A = S → Result E A × S

module _ {E S A : Type 0} where
  unfoldable pub done : A → Exec E S A
  done value s = (ok value, s)

  unfoldable pub fail : E → Exec E S A
  fail failure s = (err failure, s)

  unfoldable pub lift : Result E A → Exec E S A
  lift result s = (result, s)

  -- The result as a value: the caller decides what to do about a failure.
  unfoldable pub attempt : Exec E S A → Exec E S (Result E A)
  attempt action s = let (result, s') = action s in (ok result, s')

unfoldable pub change : {E S : Type 0} → (S → S) → Exec E S (Unit {0})
change f s = (ok tt, f s)

-- The state as it is now, for what follows.
unfoldable pub gets : {E S A : Type 0} → (S → A) → Exec E S A
gets f s = (ok (f s), s)

unfoldable pub when : {E S : Type 0} → Bool → Exec E S (Unit {0}) → Exec E S (Unit {0})
when true action = action
when false action = done tt

unfoldable pub guard : {E S : Type 0} → Bool → E → Exec E S (Unit {0})
guard true failure = done tt
guard false failure = fail failure

infixl 5 ◌>>=◌ ◌>>◌
-- Opening this opens the actions above too.
unfoldable pub ◌>>=◌ : {E S A B : Type 0} → Exec E S A → (A → Exec E S B) → Exec E S B
unfolding done fail lift attempt change gets when guard
◌>>=◌ action next s =
    let (result, s') = action s in
    elim result [ err failure ↦ (err failure, s') | ok value ↦ next value s' ]

abbrev pub ◌>>◌ : {E S A B : Type 0} → Exec E S A → Exec E S B → Exec E S B
first >> second = first >>= λ value. second

module _ {E S A B : Type 0} (action : Exec E S A) (next : A → Exec E S B) (s : S) where
  pub bind-done :
      {value : A} {s' : S} → action s ≡ (ok value, s') → (action >>= next) s ≡ next value s'
  unfolding ◌>>=◌
  bind-done e = ap (λ (p : Result E A × S). (lift p.0 >>= next) p.1) e

  pub bind-fail :
      {failure : E} {s' : S}
      → action s ≡ (err failure, s')
      → (action >>= next) s ≡ (err failure, s')
  unfolding ◌>>=◌
  bind-fail e = ap (λ (p : Result E A × S). (lift p.0 >>= next) p.1) e
