-- ===== src/Model/Reach.antt =====
-- The payment states that a swap gets to under a check of single moves.
use breez_sdk_liquid.Base.{
  Bool, true, List, [], ◌∷◌, ◌≡◌, ◌↔◌, inl, inr, arith, All, Bool-cases, any,
}
use breez_sdk_liquid.Base.Result.{Result, ok}
use breez_sdk_liquid.Model.{PaymentState, state_eq}
use breez_sdk_liquid.Model.Errors.{PaymentError}

abbrev pub contains : List PaymentState → PaymentState → Bool
contains states t = any (state_eq t) states

state_eq→eq : (s t : PaymentState) → state_eq s t ≡ true → s ≡ t
state_eq→eq s t h = ground arith

module _ (validate : PaymentState → PaymentState → Result PaymentError (Unit {0})) where
  -- A state that is reached by moves that pass the check, one after the other.
  pub data Reaches (s : PaymentState) : PaymentState → Type 0 where
    start : Reaches s s
    move : {t u : PaymentState} → Reaches s t → validate t u ≡ ok tt → Reaches s u

  -- The move to a state that is named.
  pub to :
      (u : PaymentState) {s t : PaymentState} → Reaches s t → validate t u ≡ ok tt → Reaches s u
  to u r e = move r e

  listed :
      (s t : PaymentState) (states : List PaymentState)
      → All (Reaches s) states
      → contains states t ≡ true
      → Reaches s t
  listed s t [] h e = cc
  listed s t (u ∷ states) (r, h) e = elim (Bool-cases (state_eq t u)) [
    | inl same ↦ rw (state_eq→eq t u same) r
    | inr other ↦ listed s t states h (rw other at e)
  ]

  module _ (reachable : PaymentState → List PaymentState)
      (own : (s : PaymentState) → contains (reachable s) s ≡ true)
      (paths : (s : PaymentState) → All (Reaches s) (reachable s))
      (closed : (s t u : PaymentState)
        → contains (reachable s) t ≡ true
        → validate t u ≡ ok tt
        → contains (reachable s) u ≡ true) where
    all_listed : {s t : PaymentState} → Reaches s t → contains (reachable s) t ≡ true
    all_listed {s} start = own s
    all_listed {s} (move {t} {u} r e) = closed s t u (all_listed r) e

    -- A list of states that are reached, and that no move leaves, has all that are reached.
    pub reaches_iff : (s t : PaymentState) → Reaches s t ↔ (contains (reachable s) t ≡ true)
    reaches_iff s t = (all_listed, listed s t (reachable s) (paths s))
