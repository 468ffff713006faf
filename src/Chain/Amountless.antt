-- ===== src/Chain/Amountless.antt =====
-- lib/core/src/chain_swap.rs: the swapper's quote for an incoming chain swap without an amount, and
-- whether the SDK accepts it without asking the user.
pub mod Decision
use breez_sdk_liquid.Base.{
  ℕ, String, Bool, true, false, Option, ◌-◌, sub_u64, ltb, unwrap_or, if◌then◌else◌,
}
use breez_sdk_liquid.Base.Int.{ℤ, pos, ltb_ℤ, unsigned_abs}
use breez_sdk_liquid.Base.Result.{Result, ok, map_err, ensure, ◌>>=◌, ◌>>◌}
use breez_sdk_liquid.Model.{ChainSwap, Direction, incoming, outgoing}
use breez_sdk_liquid.Model.Errors.{PaymentError, generic, AnyError}

pub data ValidateAmountlessSwapResult : Type 0 where
  ready_for_accepting : ℕ → ℕ → ValidateAmountlessSwapResult
  requires_user_action : ℕ → ValidateAmountlessSwapResult

-- The electrum library: the balance of a script.
pub record GetBalanceRes : Type 0 where
  pub confirmed : ℕ
  pub unconfirmed : ℤ

-- The swapper's library: the fees of a pair, for the server and for the service.
pub record ChainPair : Type 0 where
  pub server : ℕ
  pub boltz : ℕ → ℕ

-- What the handler asks of the libraries, the Bitcoin chain service and the configuration.
pub record Quoting : Type 0 where
  pub get_receive_lockup_swap_script_pubkey : ChainSwap → Result AnyError String
  pub script_get_balance_with_retry : String → Result AnyError GetBalanceRes
  pub get_boltz_pair : ChainSwap → Result AnyError ChainPair
  pub onchain_fee_rate_leeway_sat : Option ℕ

abbrev pub default_onchain_fee_rate_leeway_sat : ℕ
default_onchain_fee_rate_leeway_sat = 500

abbrev pub is_incoming : Direction → Bool
is_incoming incoming = true
is_incoming outgoing = false

abbrev from_any : {A : Type 0} → Result AnyError A → Result PaymentError A
from_any = map_err (λ e. generic)

unfoldable pub user_lockup_amount : GetBalanceRes → ℕ
user_lockup_amount balance =
    if ltb 0 balance.confirmed
    then balance.confirmed
    else if ltb_ℤ (pos 0) balance.unconfirmed
    then unsigned_abs balance.unconfirmed
    else 0

unfoldable pub server_lockup_amount_estimate : ChainPair → ℕ → ℕ
server_lockup_amount_estimate pair amount = sub_u64 (sub_u64 amount pair.server) (pair.boltz amount)

-- The leeway is taken off with `saturating_sub`.
unfoldable pub decide_quote : ChainPair → ℕ → ChainSwap → ℕ → ℕ → ValidateAmountlessSwapResult
decide_quote pair leeway swap amount quote =
    if ltb quote (server_lockup_amount_estimate pair amount - leeway)
    then requires_user_action amount
    else ready_for_accepting amount (sub_u64 quote swap.claim_fees_sat)

abbrev pub leeway : Quoting → ℕ
leeway quoting = unwrap_or quoting.onchain_fee_rate_leeway_sat default_onchain_fee_rate_leeway_sat

unfoldable pub validate_amountless_swap :
    Quoting → ChainSwap → ℕ → Result PaymentError ValidateAmountlessSwapResult
validate_amountless_swap quoting swap quote = do
  ensure (is_incoming swap.direction) generic
  script_pubkey ← from_any (quoting.get_receive_lockup_swap_script_pubkey swap)
  balance ← from_any (quoting.script_get_balance_with_retry script_pubkey)
  ensure (ltb 0 (user_lockup_amount balance)) generic
  pair ← from_any (quoting.get_boltz_pair swap)
  ok (decide_quote pair (leeway quoting) swap (user_lockup_amount balance) quote)
