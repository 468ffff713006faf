-- ===== src/Recover/Send.antt =====
-- lib/core/src/recover/handlers/handle_send_swap.rs: a send swap brought up to date with the chain.
-- The swap's lockup script, the swapper and the chain service are fields of `SendContext`; a claim
-- transaction is the list of its inputs, each with its script witness.
pub mod State
pub mod Update
pub mod Onchain
use breez_sdk_liquid.Base.{
  ℕ, ◌%◌, String, Bool, true, false, not, ◌&&◌, ◌||◌, Option, some, none, List, [], ◌∷◌,
  if◌then◌else◌, leb, is_some, is_none, unwrap_or, find, filter, get_elem?,
}
use mathlib.Core.Option
use breez_sdk_liquid.Base.Result.{Result, ok, err, ◌>>=◌, ok_or}
use breez_sdk_liquid.Model.{
  History, confirmed, PaymentState, pending, complete, failed, refund_pending, SendSwap,
}
use breez_sdk_liquid.Model.Errors.{AnyError, anyhow}
use breez_sdk_liquid.Recover.{TxMap, get, contains_key}
use breez_sdk_liquid.Utils.{InvoiceLib, verify_payment_hash}

pub record RecoveredOnchainDataSend : Type 0 where
  pub lockup_tx_id : Option History
  pub claim_tx_id : Option History
  pub refund_tx_id : Option History
  pub preimage : Option String

abbrev pub opt_txid : Option History → Option String
opt_txid h = Option.map (λ (t : History). t.txid) h

abbrev pub ClaimTx : Type 0
ClaimTx = List (List String)

pub record SendContext : Type 0 where
  pub lbtc_script_to_history_map : List (String × List History)
  pub tx_map : TxMap
  pub liquid_tip_height : ℕ
  -- the script of the funding address of the swap's script
  pub lockup_script : SendSwap → Result AnyError String
  -- `swapper.get_submarine_preimage`
  pub get_submarine_preimage : String → Result AnyError String
  -- `liquid_chain_service.get_transactions` for one transaction id
  pub get_transactions : String → Result AnyError (List ClaimTx)
  -- `sha256::Hash::from_slice`, in hexadecimal
  pub hash_from_slice : String → Option String

-- `preimage` is that of the swap, `refund` and `lockup` are the recovered transactions.
refund_state : Option History → Bool → Option PaymentState
refund_state (some refund) is_expired =
    if confirmed refund then some failed else some refund_pending
refund_state none is_expired = if is_expired then some refund_pending else some pending

lockup_state : Option History → Option History → Option String → Bool → Option PaymentState
lockup_state (some lockup) refund (some preimage) is_expired = some complete
lockup_state (some lockup) refund none is_expired = refund_state refund is_expired
lockup_state none refund preimage is_expired = if is_expired then some failed else none

pub derive_partial_state : RecoveredOnchainDataSend → Option String → Bool → Option PaymentState
unfolding refund_state lockup_state
derive_partial_state d preimage is_expired =
    lockup_state d.lockup_tx_id d.refund_tx_id preimage is_expired

unfoldable pub should_skip_recovery : SendSwap → RecoveredOnchainDataSend → Bool → Bool
should_skip_recovery s d is_within_grace_period =
    let lockup_is_cleared = is_some s.lockup_tx_id && is_none d.lockup_tx_id in
    let refund_is_cleared = is_some s.refund_tx_id && is_none d.refund_tx_id in
    is_within_grace_period && (lockup_is_cleared || refund_is_cleared)

-- The preimage is stored only if it fits the invoice.
update_preimage : InvoiceLib → Option String → SendSwap → SendSwap
update_preimage lib none s = s
update_preimage lib (some preimage) s = elim (verify_payment_hash lib preimage s.invoice) [
  | ok _ ↦ record s { preimage = some preimage }
  | err _ ↦ s
]

pub is_expired_at : SendSwap → ℕ → Bool
is_expired_at s current_block_height =
    leb (s.timeout_block_height % 4294967296) current_block_height

unfoldable pub update_swap :
    InvoiceLib
    → SendSwap
    → RecoveredOnchainDataSend
    → ℕ
    → Bool
    → SendSwap × Result AnyError (Unit {0})
unfolding update_preimage
update_swap lib s d current_block_height is_within_grace_period =
    let txs = record s {
      lockup_tx_id = opt_txid d.lockup_tx_id;
      refund_tx_id = opt_txid d.refund_tx_id;
    } in
    let known = update_preimage lib d.preimage txs in
    let new_state = derive_partial_state d known.preimage (is_expired_at s current_block_height) in
    if should_skip_recovery s d is_within_grace_period
    then (s, ok tt)
    else (record known { state = unwrap_or new_state known.state }, ok tt)

unfoldable pub recover_onchain_data : TxMap → List History → RecoveredOnchainDataSend
recover_onchain_data tx_map wallet_history =
    let is_outgoing = λ (tx : History). contains_key tx.txid tx_map.outgoing_tx_map in
    let is_incoming = λ (tx : History). contains_key tx.txid tx_map.incoming_tx_map in
    let lockup = find is_outgoing wallet_history in
    let claim =
      find (λ tx. not (is_outgoing tx)) (filter (λ tx. not (is_incoming tx)) wallet_history) in
    record {
      lockup_tx_id = lockup;
      claim_tx_id = if is_some lockup then claim else none;
      refund_tx_id = find is_incoming wallet_history;
      preimage = none;
    }

module _ (c : SendContext) where
  unfoldable pub extract_preimage_from_claim_tx : ClaimTx → Result AnyError String
  extract_preimage_from_claim_tx claim_tx = do
    script_witness ← ok_or (get_elem? claim_tx 0) anyhow
    preimage_bytes ← ok_or (get_elem? script_witness 1) anyhow
    ok_or (c.hash_from_slice preimage_bytes) anyhow

  abbrev first_preimage : List ClaimTx → Result AnyError (Option String)
  first_preimage [] = ok none
  first_preimage (tx ∷ _) = extract_preimage_from_claim_tx tx >>= λ p. ok (some p)

  recover_preimage : Option History → String → Result AnyError (Option String)
  recover_preimage claim_tx_id swap_id = elim (c.get_submarine_preimage swap_id) [
    | ok preimage ↦ ok (some preimage)
    | err _ ↦ elim claim_tx_id [
      | some claim ↦ c.get_transactions claim.txid >>= first_preimage
      | none ↦ ok none
    ]
  ]

  -- The second half of `recover_swap`'s first step: a preimage that is found is kept, and where
  -- none is found the claim is forgotten.
  abbrev with_preimage :
      Result AnyError (Option String) → RecoveredOnchainDataSend → RecoveredOnchainDataSend
  with_preimage (ok (some preimage)) d = record d { preimage = some preimage }
  with_preimage (ok none) d = record d { claim_tx_id = none }
  with_preimage (err _) d = record d { claim_tx_id = none }

  pub recovered_data : SendSwap → List History → RecoveredOnchainDataSend
  unfolding recover_preimage recover_onchain_data
  recovered_data s history =
      let d = recover_onchain_data c.tx_map history in
      if is_some d.lockup_tx_id && is_none s.preimage
      then with_preimage (recover_preimage d.claim_tx_id s.id) d
      else d

  pub recover_swap : InvoiceLib → SendSwap → Bool → SendSwap × Result AnyError (Unit {0})
  recover_swap lib s is_within_grace_period = elim (c.lockup_script s) [
    | err e ↦ (s, err e)
    | ok script ↦
        let history = unwrap_or (get script c.lbtc_script_to_history_map) [] in
        update_swap lib s (recovered_data s history) c.liquid_tip_height is_within_grace_period
  ]
