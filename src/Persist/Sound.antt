-- ===== src/Persist/Sound.antt =====
-- Actions that move each row of a table only as a relation allows: one rule for each way to build
-- an action.
use breez_sdk_liquid.Base.{Bool, true, false, List, [], ◌∷◌, ◌≡◌, All, if◌then◌else◌}
use breez_sdk_liquid.Base.Result.{Result, ok, err}
use breez_sdk_liquid.Base.Exec.{Exec, done, fail, lift, attempt, when, guard, gets, change, ◌>>=◌}
use breez_sdk_liquid.Persist.{Schema, update_where}
use breez_sdk_liquid.Persist.Rows.{
  Rows, Rows-refl, Rows-trans, update_where-Rows, IsValid, IsValid-Rows,
}

-- A relation of rows that composes and keeps their ids.
pub record Motion {A : Type 0} (schema : Schema A) (R : A → A → Type 0) : Type 0 where
  pub same : (s : A) → R s s
  pub compose : (s t u : A) → R s t → R t u → R s u
  pub keeps_id : (s t : A) → R s t → schema.id s ≡ schema.id t

pub All-rows : {A : Type 0} (ss : List A) → All (λ s. Unit {0}) ss
All-rows [] = tt
All-rows (s ∷ ss) = (tt, All-rows ss)

module _ {E S A : Type 0} (rows_of : S → List A) (schema : Schema A) {R : A → A → Type 0}
    (motion : Motion schema R) where
  -- An action that a valid table survives, each of its rows moving as it may.
  pub record Sound {B : Type 0} (action : Exec E S B) : Type 0 where
    pub rows : (s : S) → IsValid schema (rows_of s) → Rows R (rows_of s) (rows_of (action s).1)

  pub unchanged-Sound :
      {B : Type 0} (action : Exec E S B)
      → ((s : S) → rows_of s ≡ rows_of (action s).1)
      → Sound action
  unchanged-Sound action unchanged = record {
    rows = λ s v. rw (← unchanged s) (Rows-refl motion.same (rows_of s));
  }

  pub lift-Sound : {B : Type 0} (result : Result E B) → Sound (lift result)
  unfolding lift
  lift-Sound result = record { rows = λ s v. Rows-refl motion.same (rows_of s) }

  pub gets-Sound : {B : Type 0} (f : S → B) → Sound (gets f)
  unfolding gets
  gets-Sound f = record { rows = λ s v. Rows-refl motion.same (rows_of s) }

  pub done-Sound : {B : Type 0} (value : B) → Sound (done value)
  unfolding done
  done-Sound value = record { rows = λ s v. Rows-refl motion.same (rows_of s) }

  pub fail-Sound : {B : Type 0} (failure : E) → Sound {B = B} (fail failure)
  unfolding fail
  fail-Sound failure = record { rows = λ s v. Rows-refl motion.same (rows_of s) }

  -- A change of anything but the rows.
  pub change-Sound :
      (f : S → S) → ((s : S) → rows_of s ≡ rows_of (f s)) → Sound {B = Unit {0}} (change f)
  unfolding change
  change-Sound f unchanged = unchanged-Sound (change f) unchanged

  pub attempt-Sound : {B : Type 0} (action : Exec E S B) → Sound action → Sound (attempt action)
  unfolding attempt
  attempt-Sound action h = record { rows = h.rows }

  pub when-Sound :
      (test : Bool) (action : Exec E S (Unit {0})) → Sound action → Sound (when test action)
  unfolding when
  when-Sound true action h = h
  when-Sound false action h = done-Sound tt

  pub guard-Sound : (test : Bool) (failure : E) → Sound (guard test failure)
  unfolding guard
  guard-Sound true failure = done-Sound tt
  guard-Sound false failure = fail-Sound failure

  pub if-Sound :
      {B : Type 0} (test : Bool) (first second : Exec E S B)
      → Sound first
      → Sound second
      → Sound (if test then first else second)
  if-Sound true first second h k = h
  if-Sound false first second h k = k

  then_next :
      {B C : Type 0} (result : Result E B) (next : B → Exec E S C) (ss : List A) (s : S)
      → Rows R ss (rows_of s)
      → ((value : B) → Rows R (rows_of s) (rows_of (next value s).1))
      → Rows R ss (rows_of ((lift result >>= next) s).1)
  unfolding ◌>>=◌
  then_next (err failure) next ss s h k = h
  then_next (ok value) next ss s h k = Rows-trans motion.compose h (k value)

  pub bind-Sound :
      {B C : Type 0} (action : Exec E S B) (next : B → Exec E S C)
      → Sound action
      → ((value : B) → Sound (next value))
      → Sound (action >>= next)
  unfolding ◌>>=◌
  bind-Sound action next h k = record {
    rows = λ s v.
        then_next (action s).0 next (rows_of s) (action s).1 (h.rows s v) (λ value.
          (k value).rows (action s).1 (IsValid-Rows schema motion.keeps_id (h.rows s v) v));
  }

  -- An UPDATE by a write that any row may make.
  pub update-Sound :
      {B : Type 0} (action : Exec E S B) (test : A → Bool) (set : A → A)
      → ((s : S) → rows_of (action s).1 ≡ update_where schema test set (rows_of s))
      → ((s : A) → R s (schema.touch (set s)))
      → Sound action
  update-Sound action test set written moves = record {
    rows = λ s v. rw (written s) (
        update_where-Rows schema R {P = λ s. Unit} test set motion.same (λ s p h. moves s)
          (rows_of s) (All-rows (rows_of s)));
  }

pub ruleset sound_rules = (
  bind-Sound, lift-Sound, gets-Sound, done-Sound, fail-Sound, attempt-Sound, when-Sound,
  guard-Sound, if-Sound,
)
