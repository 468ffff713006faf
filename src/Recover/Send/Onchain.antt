-- ===== src/Recover/Send/Onchain.antt =====
-- Which transactions of its history a send swap is given.
use mathlib.Core.List.{Memᴰ}
use breez_sdk_liquid.Base.{
  Bool, true, false, not, ◌&&◌, none, List, ◌≡◌, ◌⊎◌, inl, inr, is_some, Bool-cases, find, FirstOf,
  find-FirstOf, find-filter, find_hit,
}
use breez_sdk_liquid.Model.{History}
use breez_sdk_liquid.Recover.{TxMap, contains_key}
use breez_sdk_liquid.Recover.Send.{recover_onchain_data}

module _ (tx_map : TxMap) (history : List History) where
  abbrev ours : History → Bool
  ours tx = contains_key tx.txid tx_map.outgoing_tx_map

  abbrev paid_to_us : History → Bool
  paid_to_us tx = contains_key tx.txid tx_map.incoming_tx_map

  -- The lockup is the first outgoing transaction and the refund the first incoming one, if there is
  -- any. With a lockup, the claim is the first transaction that is neither; without a lockup there
  -- is no claim.
  pub send_onchain_sound :
      let d = recover_onchain_data tx_map history in
      FirstOf ours history d.lockup_tx_id
      × FirstOf paid_to_us history d.refund_tx_id
      × ((is_some d.lockup_tx_id ≡ true)
            × FirstOf (λ tx. not (paid_to_us tx) && not (ours tx)) history d.claim_tx_id
          ⊎ (is_some d.lockup_tx_id ≡ false) × (d.claim_tx_id ≡ none))
  unfolding recover_onchain_data
  send_onchain_sound = (
    find-FirstOf ours history,
    find-FirstOf paid_to_us history,
    elim (Bool-cases (is_some (find ours history))) [
      | inl e ↦ inl (
        e,
        rw e (
            rw (find-filter (λ tx. not (ours tx)) (λ tx. not (paid_to_us tx)) history)
              (find-FirstOf (λ tx. not (paid_to_us tx) && not (ours tx)) history)),
      )
      | inr e ↦ inr (e, rw e)
    ],
  )

  -- A transaction that the wallet does not know of is taken for the claim, or hides behind another
  -- such transaction: where a lockup was found, there is a claim too. So a refund of ours that is
  -- missing from an older `tx_map` makes a claim.
  pub unknown_tx_is_claim :
      {tx : History}
      → Memᴰ tx history
      → contains_key tx.txid tx_map.outgoing_tx_map ≡ false
      → contains_key tx.txid tx_map.incoming_tx_map ≡ false
      → is_some (recover_onchain_data tx_map history).lockup_tx_id ≡ true
      → is_some (recover_onchain_data tx_map history).claim_tx_id ≡ true
  unfolding recover_onchain_data
  unknown_tx_is_claim {tx} m o i l = rw l (
      rw (find-filter (λ tx. not (ours tx)) (λ tx. not (paid_to_us tx)) history)
        (find_hit (λ tx. not (paid_to_us tx) && not (ours tx)) m (rw (i, o))))
