-- ===== src/Chain/Handler/Refund.antt =====
-- lib/core/src/chain_swap.rs: refunds of chain swaps.
use breez_sdk_liquid.Base.{
  ℕ, String, Bool, true, false, ◌&&◌, ◌||◌, Option, some, none, List, [], ◌∷◌, if◌then◌else◌,
  is_none, filter,
}
use breez_sdk_liquid.Base.Result.{Result, ok, err, ok_or}
use breez_sdk_liquid.Base.Exec.{done, fail, lift, attempt, gets, guard, when, ◌>>=◌, ◌>>◌}
use breez_sdk_liquid.Model.{
  ChainSwap, outgoing, PaymentState, state_eq, refundable, refund_pending, waiting_fee_acceptance,
}
use breez_sdk_liquid.Model.Equality.{direction_eq}
use breez_sdk_liquid.Model.Errors.{PaymentError, generic}
use breez_sdk_liquid.Send.Handler.{SdkTransaction, liquid, bitcoin}
use breez_sdk_liquid.Utils.{is_locktime_expired}
use breez_sdk_liquid.Chain.Store.{
  Db, Action, to_state_only, fetch_chain_swap_by_lockup_address, list_pending_chain_swaps,
  set_chain_swap_refund_address,
}
use breez_sdk_liquid.Chain.Handler.{
  Services, from_any, as_liquid_script, as_bitcoin_script, broadcast_liquid, broadcast_bitcoin,
  update_swap_info,
}

abbrev pub is_refundable : PaymentState → Bool
is_refundable s =
    state_eq s refundable || (state_eq s refund_pending || state_eq s waiting_fee_acceptance)

module _ (services : Services) where
  unfoldable pub broadcast_bitcoin_refund : SdkTransaction → Action String
  broadcast_bitcoin_refund (bitcoin tx) = broadcast_bitcoin services tx
  broadcast_bitcoin_refund (liquid tx) = fail generic

  unfoldable pub broadcast_liquid_refund : SdkTransaction → Action String
  broadcast_liquid_refund (liquid tx) = broadcast_liquid services tx
  broadcast_liquid_refund (bitcoin tx) = fail generic

  abbrev pub record_refund : String → String → Action (Unit {0})
  record_refund id tx_id =
      update_swap_info services
        (record (to_state_only id refund_pending) { refund_tx_id = some tx_id })

  -- The user asks for it, with an address and a fee rate; a later refund replaces an earlier one.
  unfoldable pub refund_incoming_swap : String → String → ℕ → Bool → Action String
  refund_incoming_swap lockup_address refund_address fee_rate is_cooperative = do
    found ← gets (λ (db : Db). fetch_chain_swap_by_lockup_address lockup_address db.swaps)
    swap ← lift (ok_or found generic)
    guard (is_refundable swap.state) generic
    swap_script ← from_any (services.get_lockup_swap_script swap)
    script ← from_any (as_bitcoin_script swap_script)
    script_pk ← from_any script.script_pubkey
    utxos ← from_any (services.bitcoin_utxos script_pk)
    refund_tx ←
        lift (services.create_refund_tx swap refund_address utxos (some fee_rate) is_cooperative)
    refund_tx_id ← broadcast_bitcoin_refund refund_tx
    record_refund swap.id refund_tx_id
    done refund_tx_id

  unfoldable pub refund_address_of : String → Option String → Action String
  refund_address_of id (some address) = done address
  refund_address_of id none = do
    address ← lift services.next_unused_address
    set_chain_swap_refund_address services.table id address
    done address

  unfoldable pub refund_outgoing_swap : ChainSwap → Bool → Action String
  refund_outgoing_swap swap is_cooperative = do
    guard (is_none swap.refund_tx_id) generic
    swap_script ← from_any (services.get_lockup_swap_script swap)
    script ← from_any (as_liquid_script swap_script)
    script_pk ← from_any script.script_pubkey
    utxos ← from_any (services.liquid_utxos script_pk)
    refund_address ← refund_address_of swap.id swap.refund_address
    refund_tx ← lift (services.create_refund_tx swap refund_address utxos none is_cooperative)
    broadcast_liquid_refund refund_tx

  -- Cooperatively first, then without the swapper's help.
  unfoldable pub or_alone : ChainSwap → Result PaymentError String → Action String
  or_alone swap (ok tx_id) = done tx_id
  or_alone swap (err failure) = refund_outgoing_swap swap false

  unfoldable pub refund_both_ways : ChainSwap → Action String
  refund_both_ways swap = do result ← attempt (refund_outgoing_swap swap true); or_alone swap result

  -- The result of a refund is recorded; failures are only logged.
  unfoldable pub record_result : String → Result PaymentError String → Action (Unit {0})
  record_result id (err failure) = done tt
  record_result id (ok tx_id) = do result ← attempt (record_refund id tx_id); done tt

  unfoldable pub recorded : String → Action String → Action (Unit {0})
  recorded id action = do result ← attempt action; record_result id result

  unfoldable pub refund_by_state : ChainSwap → Bool → PaymentState → Action (Unit {0})
  refund_by_state swap expired PaymentState.pending =
      recorded swap.id (refund_outgoing_swap swap false)
  refund_by_state swap expired PaymentState.refund_pending =
      recorded swap.id (if expired then refund_both_ways swap else refund_outgoing_swap swap true)
  refund_by_state swap expired _ = done tt

  unfoldable pub check_refund : ℕ → ChainSwap → Action (Unit {0})
  check_refund height swap = do
    swap_script ← from_any (services.get_lockup_swap_script swap)
    script ← from_any (as_liquid_script swap_script)
    locktime ← from_any (services.from_height height)
    let expired = is_locktime_expired locktime script.locktime
    when (expired || state_eq swap.state refund_pending) (refund_by_state swap expired swap.state)

  -- A swap whose script can not be read ends the round.
  unfoldable pub check_refunds : ℕ → List ChainSwap → Action (Unit {0})
  check_refunds height [] = done tt
  check_refunds height (swap ∷ swaps) = do check_refund height swap; check_refunds height swaps

  abbrev pub awaits_refund : ChainSwap → Bool
  awaits_refund s = direction_eq s.direction outgoing && is_none s.refund_tx_id

  unfoldable pub refund_outgoing : ℕ → Action (Unit {0})
  refund_outgoing height = do
    swaps ← gets (λ (db : Db). filter awaits_refund (list_pending_chain_swaps db.swaps))
    check_refunds height swaps
