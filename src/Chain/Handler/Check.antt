-- ===== src/Chain/Handler/Check.antt =====
-- lib/core/src/chain_swap.rs: what the handler checks of a lockup with the help of the chain services.
use breez_sdk_liquid.Base.{
  ℕ, String, Bool, true, false, not, ◌&&◌, Option, some, none, List, [], ◌∷◌, if◌then◌else◌, ltb,
  any, find, add_u64,
}
use breez_sdk_liquid.Base.Int.{ℤ}
use breez_sdk_liquid.Base.Text.{str_eq}
use breez_sdk_liquid.Base.Result.{Result, ok, ok_or, ensure, ◌>>=◌, ◌>>◌}
use breez_sdk_liquid.Model.{ChainSwap, Direction, incoming, outgoing}
use breez_sdk_liquid.Model.Errors.{AnyError, anyhow}
use breez_sdk_liquid.Recover.Btc.{TxOut}
use breez_sdk_liquid.Chain.Handler.{
  SwapScriptV2, liquid_script, bitcoin_script, as_liquid_script, as_bitcoin_script, LiquidTxOut,
  VerifiedTx, Services,
}

-- `TransactionInfo` of the swapper's status updates.
pub record TransactionInfo : Type 0 where
  pub id : String
  pub hex : Option String

abbrev head? : {A : Type 0} → List A → Option A
head? [] = none
head? (x ∷ xs) = some x

-- What pays to the script, as the wallet sees it: a value that wraps around at 64 bits.
unfoldable pub unblinded_value : String → String → List LiquidTxOut → ℕ → Result AnyError ℕ
unblinded_value key script [] value = ok value
unblinded_value key script (out ∷ outs) value = elim (str_eq out.script_pubkey script) [
  | true ↦ do sats ← out.unblind key; unblinded_value key script outs (add_u64 value sats)
  | false ↦ unblinded_value key script outs value
]

unfoldable pub output_value : String → List TxOut → ℕ
output_value script [] = 0
output_value script (out ∷ outs) =
    let rest = output_value script outs in
    if str_eq out.script_pubkey script then add_u64 out.value rest else rest

-- What the server has to lock up: what was accepted with the claim fees, or what was agreed.
unfoldable pub expected_incoming : ChainSwap → ℕ → ℕ
expected_incoming swap claim_amount = elim (swap.accepted_receiver_amount_sat) [
  | none ↦ claim_amount
  | some accepted ↦ add_u64 accepted swap.claim_fees_sat
]

-- A transaction that may still be replaced counts only once it is confirmed.
abbrev pub rbf_refused : {A : Type 0} → Bool → VerifiedTx A → Bool
rbf_refused verify_confirmation tx =
    not verify_confirmation && any (λ (rbf : Bool). rbf) tx.input_is_rbf

module _ (services : Services) where
  unfoldable pub fetch_script_history : SwapScriptV2 → Result AnyError (List (String × ℤ))
  fetch_script_history (liquid_script s) = do
    script ← s.script_pubkey
    services.liquid_history script
  fetch_script_history (bitcoin_script s) = do
    script ← s.script_pubkey
    services.bitcoin_history script

  unfoldable pub verify_incoming_server_lockup_tx :
      ChainSwap → TransactionInfo → Bool → Result AnyError (Unit {0})
  verify_incoming_server_lockup_tx swap update_tx verify_confirmation = do
    swap_script ← services.get_claim_swap_script swap
    response ← services.get_boltz_create_response swap
    script ← as_liquid_script swap_script
    address ← script.script_pubkey
    tx_hex ← ok_or update_tx.hex anyhow
    tx ← services.liquid_verify_tx address update_tx.id tx_hex verify_confirmation
    ensure (not (rbf_refused verify_confirmation tx)) anyhow
    value ← unblinded_value script.blinding_key address tx.output 0
    ensure (not (ltb value (expected_incoming swap response.claim_amount))) anyhow

  unfoldable pub verify_outgoing_server_lockup_tx :
      ChainSwap → TransactionInfo → Bool → Result AnyError (Unit {0})
  verify_outgoing_server_lockup_tx swap update_tx verify_confirmation = do
    swap_script ← services.get_claim_swap_script swap
    response ← services.get_boltz_create_response swap
    script ← as_bitcoin_script swap_script
    address ← script.script_pubkey
    tx_hex ← ok_or update_tx.hex anyhow
    tx ← services.bitcoin_verify_tx address update_tx.id tx_hex verify_confirmation
    ensure (not (rbf_refused verify_confirmation tx)) anyhow
    ensure (not (ltb (output_value address tx.output) response.claim_amount)) anyhow

  unfoldable pub verify_server_lockup_by :
      Direction → ChainSwap → TransactionInfo → Bool → Result AnyError (Unit {0})
  verify_server_lockup_by incoming = verify_incoming_server_lockup_tx
  verify_server_lockup_by outgoing = verify_outgoing_server_lockup_tx

  abbrev pub verify_server_lockup_tx :
      ChainSwap → TransactionInfo → Bool → Result AnyError (Unit {0})
  verify_server_lockup_tx swap = verify_server_lockup_by swap.direction swap

  -- The user's lockup is the first transaction of the script's history.
  unfoldable pub fetch_incoming_swap_actual_payer_amount : ChainSwap → Result AnyError ℕ
  fetch_incoming_swap_actual_payer_amount swap = do
    swap_script ← services.get_lockup_swap_script swap
    script ← as_bitcoin_script swap_script
    script_pubkey ← script.script_pubkey
    history ← services.bitcoin_history script_pubkey
    first ← ok_or (head? history) anyhow
    txs ← services.get_transactions (first.0 ∷ [])
    tx ← ok_or (head? txs) anyhow
    out ← ok_or (find (λ (out : TxOut). str_eq out.script_pubkey script_pubkey) tx.output) anyhow
    ok out.value
