-- ===== src/Tests/Amountless.antt =====
-- A quote for an incoming chain swap without an amount.
use breez_sdk_liquid.Base.{◌≡◌, refl, none, arith, sub_u64}
use breez_sdk_liquid.Base.Int.{pos}
use breez_sdk_liquid.Base.Result.{ok}
use breez_sdk_liquid.Chain.Amountless.{
  ValidateAmountlessSwapResult, ready_for_accepting, requires_user_action, GetBalanceRes, ChainPair,
  Quoting, user_lockup_amount, server_lockup_amount_estimate, decide_quote, leeway,
  validate_amountless_swap,
}
use breez_sdk_liquid.Chain.Amountless.Decision.{Decision, validate_amountless-Decision}
use breez_sdk_liquid.Tests.Data.{chain_swap}

abbrev locked_balance : GetBalanceRes
locked_balance = record { confirmed = 0; unconfirmed = pos 100000 }

abbrev pair : ChainPair
pair = record { server = 1000; boltz = λ amount. 250 }

abbrev quoting : Quoting
quoting = record {
  get_receive_lockup_swap_script_pubkey = λ swap. ok "script";
  script_get_balance_with_retry = λ script. ok locked_balance;
  get_boltz_pair = λ swap. ok pair;
  onchain_fee_rate_leeway_sat = none;
}

fair_quote :
    validate_amountless_swap quoting chain_swap 98250 ≡ ok (ready_for_accepting 100000 98240)
unfolding validate_amountless_swap user_lockup_amount decide_quote server_lockup_amount_estimate
    sub_u64
fair_quote = refl

dear_quote : validate_amountless_swap quoting chain_swap 98249 ≡ ok (requires_user_action 100000)
unfolding validate_amountless_swap user_lockup_amount decide_quote server_lockup_amount_estimate
    sub_u64
dear_quote = refl

validate_amountless-Decision_example :
    (outcome : ValidateAmountlessSwapResult) × (validate_amountless_swap quoting chain_swap 98250
      ≡ ok outcome)
    × Decision pair (leeway quoting) chain_swap (user_lockup_amount locked_balance) 98250 outcome
unfolding user_lockup_amount
validate_amountless-Decision_example =
    validate_amountless-Decision quoting chain_swap 98250 {script = "script"}
      {balance = locked_balance} {pair = pair} refl refl refl refl (omega arith) (omega arith)
      (omega arith) (omega arith) (omega arith)
