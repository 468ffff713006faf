-- ===== src/Chain/Handler/Fees.antt =====
-- lib/core/src/chain_swap.rs: the quote of a swap without an amount, accepted or left to the user.
use breez_sdk_liquid.Base.{ℕ, String, some, none, ◌∷◌, is_some}
use breez_sdk_liquid.Base.Result.{Result, ok, err}
use breez_sdk_liquid.Base.Exec.{fail, lift, attempt, when, change, ◌>>=◌, ◌>>◌}
use breez_sdk_liquid.Model.{ChainSwap, waiting_fee_acceptance}
use breez_sdk_liquid.Model.Errors.{PaymentError}
use breez_sdk_liquid.Chain.Amountless.{
  ValidateAmountlessSwapResult, ready_for_accepting, requires_user_action, validate_amountless_swap,
}
use breez_sdk_liquid.Chain.Store.{
  Action, to_state_only, update_actual_payer_amount, update_accepted_receiver_amount,
  set_chain_swap_auto_accepted_fees,
}
use breez_sdk_liquid.Chain.Handler.{Services, update_swap_info}

module _ (services : Services) where
  abbrev pub erase_accepted : String → Action (Unit {0})
  erase_accepted id = update_accepted_receiver_amount services.table id none

  unfoldable pub accept_quote : String → ℕ → Action (Unit {0})
  accept_quote id quote = elim (services.accept_zero_amount_chain_swap_quote id quote) [
    | err failure ↦ fail failure
    | ok _ ↦ change (λ db. record db { accepted_quotes = (id, quote) ∷ db.accepted_quotes })
  ]

  -- The accepted amount is written before the swapper is asked, and erased if it refuses.
  unfoldable pub after_accept : String → Result PaymentError (Unit {0}) → Action (Unit {0})
  after_accept id (ok _) = set_chain_swap_auto_accepted_fees services.table id
  after_accept id (err failure) = do erased ← attempt (erase_accepted id); fail failure

  unfoldable pub on_validated : String → ℕ → ValidateAmountlessSwapResult → Action (Unit {0})
  on_validated id quote (ready_for_accepting user_lockup receiver) = do
    update_actual_payer_amount services.table id user_lockup
    update_accepted_receiver_amount services.table id (some receiver)
    result ← attempt (accept_quote id quote)
    after_accept id result
  on_validated id quote (requires_user_action user_lockup) = do
    update_actual_payer_amount services.table id user_lockup
    update_swap_info services (to_state_only id waiting_fee_acceptance)

  unfoldable pub handle_amountless_update : ChainSwap → Action (Unit {0})
  handle_amountless_update swap = do
    when (is_some swap.accepted_receiver_amount_sat) (erase_accepted swap.id)
    quote ← lift (services.get_zero_amount_chain_swap_quote swap.id)
    validated ← lift (validate_amountless_swap services.quoting swap quote)
    on_validated swap.id quote validated
