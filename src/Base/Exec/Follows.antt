-- ===== src/Base/Exec/Follows.antt =====
-- Actions whose end stands to their start in a relation of states, as long as the state is good.
use breez_sdk_liquid.Base.Result.{Result, ok, err}
use breez_sdk_liquid.Base.Exec.{Exec, done, fail, lift, attempt, gets, when, guard, ◌>>=◌}
use mathlib.Core.Bool.{Bool, true, false}

-- A relation of states that composes, and that good states do not leave.
pub record Order {S : Type 0} (Good : S → Type 0) (R : S → S → Type 0) : Type 0 where
  pub same : (s : S) → R s s
  pub compose : {s t u : S} → R s t → R t u → R s u
  pub stays : {s t : S} → R s t → Good s → Good t

module _ {E S : Type 0} {Good : S → Type 0} {R : S → S → Type 0} (order : Order Good R) where
  pub record Follows {A : Type 0} (action : Exec E S A) : Type 0 where
    pub at : (s : S) → Good s → R s (action s).1

  pub lift-Follows : {A : Type 0} (result : Result E A) → Follows (lift result)
  unfolding lift
  lift-Follows result = record { at = λ s g. order.same s }

  pub gets-Follows : {A : Type 0} (f : S → A) → Follows (gets f)
  unfolding gets
  gets-Follows f = record { at = λ s g. order.same s }

  pub done-Follows : {A : Type 0} (value : A) → Follows (done value)
  unfolding done
  done-Follows value = record { at = λ s g. order.same s }

  pub fail-Follows : {A : Type 0} (failure : E) → Follows {A = A} (fail failure)
  unfolding fail
  fail-Follows failure = record { at = λ s g. order.same s }

  pub attempt-Follows :
      {A : Type 0} (action : Exec E S A) → Follows action → Follows (attempt action)
  unfolding attempt
  attempt-Follows action h = record { at = h.at }

  pub when-Follows :
      (test : Bool) (action : Exec E S (Unit {0})) → Follows action → Follows (when test action)
  unfolding when
  when-Follows true action h = h
  when-Follows false action h = done-Follows tt

  pub guard-Follows : (test : Bool) (failure : E) → Follows (guard test failure)
  unfolding guard
  guard-Follows true failure = done-Follows tt
  guard-Follows false failure = fail-Follows failure

  then_next :
      {A B : Type 0} (result : Result E A) (next : A → Exec E S B) (s t : S)
      → R s t
      → ((value : A) → R t (next value t).1)
      → R s ((lift result >>= next) t).1
  unfolding ◌>>=◌
  then_next (err failure) next s t h k = h
  then_next (ok value) next s t h k = order.compose h (k value)

  pub bind-Follows :
      {A B : Type 0} (action : Exec E S A) (next : A → Exec E S B)
      → Follows action
      → ((value : A) → Follows (next value))
      → Follows (action >>= next)
  unfolding ◌>>=◌
  bind-Follows action next h k = record {
    at = λ s g.
        then_next (action s).0 next s (action s).1 (h.at s g)
          (λ value. (k value).at (action s).1 (order.stays (h.at s g) g));
  }

pub ruleset follows_rules = (
  lift-Follows, gets-Follows, done-Follows, fail-Follows, attempt-Follows, when-Follows,
  guard-Follows, bind-Follows,
)
