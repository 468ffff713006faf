-- ===== src/Chain/Moves/Verify.antt =====
-- The checks before a claim, and the decision on a quote, move the rows only as `Moves` allows.
use breez_sdk_liquid.Base.{ℕ, String, Option, some, none, List, [], ◌∷◌, inl, inr}
use breez_sdk_liquid.Base.Int.{ℤ}
use breez_sdk_liquid.Base.Result.{Result, ok, err, Result-cases}
use breez_sdk_liquid.Model.{ChainSwap, Direction, incoming, outgoing}
use breez_sdk_liquid.Model.Errors.{PaymentError}
use breez_sdk_liquid.Base.{refl}
use breez_sdk_liquid.Persist.Sound as Any
use breez_sdk_liquid.Chain.Amountless.{
  ValidateAmountlessSwapResult, ready_for_accepting, requires_user_action,
}
use breez_sdk_liquid.Chain.Handler.{Services}
use breez_sdk_liquid.Chain.Handler.Verify.{
  known_lockup, user_lockup_tx_exists, actual_payer_amount, verify_payer_amount,
  verify_user_lockup_tx,
}
use breez_sdk_liquid.Chain.Handler.Fees.{
  accept_quote, after_accept, on_validated, handle_amountless_update,
}
use breez_sdk_liquid.Chain.Moves.{motion}
use breez_sdk_liquid.Chain.Moves.Store.{rows_of, Sound}
use breez_sdk_liquid.Chain.Moves.Handler.{handler_rules}

module _ (services : Services) where
  known_lockup-Sound :
      (swap : ChainSwap) (history : List (String × ℤ)) (lockup : Option String)
      → Sound services.table (known_lockup services swap history lockup)
  unfolding known_lockup
  known_lockup-Sound swap history (some lockup) = search handler_rules
  known_lockup-Sound swap [] none = search handler_rules
  known_lockup-Sound swap (h ∷ history) none = search handler_rules

  pub exists-Sound : (swap : ChainSwap) → Sound services.table (user_lockup_tx_exists services swap)
  unfolding user_lockup_tx_exists
  exists-Sound swap = search (handler_rules, known_lockup-Sound) depth 20

  actual-Sound :
      (swap : ChainSwap) (amount : Option ℕ)
      → Sound services.table (actual_payer_amount services swap amount)
  unfolding actual_payer_amount
  actual-Sound swap (some amount) = search handler_rules
  actual-Sound swap none = search handler_rules

  payer-Sound :
      (swap : ChainSwap) (direction : Direction)
      → Sound services.table (verify_payer_amount services swap direction)
  unfolding verify_payer_amount
  payer-Sound swap outgoing = search handler_rules
  payer-Sound swap incoming = search (handler_rules, actual-Sound) depth 20

  pub verify_user_lockup-Sound :
      (swap : ChainSwap) → Sound services.table (verify_user_lockup_tx services swap)
  unfolding verify_user_lockup_tx
  verify_user_lockup-Sound swap = search (handler_rules, exists-Sound, payer-Sound) depth 20

  accept_quote-Sound :
      (id : String) (quote : ℕ) → Sound services.table (accept_quote services id quote)
  unfolding accept_quote
  accept_quote-Sound id quote =
      elim (Result-cases (services.accept_zero_amount_chain_swap_quote id quote)) [
        | inl (failure, e) ↦ rw (e, accept_quote) (search handler_rules)
        | inr (u, e) ↦
            rw (e, accept_quote) (Any.change-Sound rows_of _ (motion services.table) _ (λ db. refl))
      ]

  after_accept-Sound :
      (id : String) (result : Result PaymentError (Unit {0}))
      → Sound services.table (after_accept services id result)
  unfolding after_accept
  after_accept-Sound id (ok u) = search handler_rules
  after_accept-Sound id (err failure) = search handler_rules

  validated-Sound :
      (id : String) (quote : ℕ) (result : ValidateAmountlessSwapResult)
      → Sound services.table (on_validated services id quote result)
  unfolding on_validated
  validated-Sound id quote (ready_for_accepting user_lockup receiver) =
      search (handler_rules, accept_quote-Sound, after_accept-Sound) depth 20
  validated-Sound id quote (requires_user_action user_lockup) = search handler_rules

  pub amountless-Sound :
      (swap : ChainSwap) → Sound services.table (handle_amountless_update services swap)
  unfolding handle_amountless_update
  amountless-Sound swap = search (handler_rules, validated-Sound) depth 20
