-- ===== src/Chain/Moves/Store.antt =====
-- Each operation of the table moves the rows of chain swaps only as `Moves` allows.
use breez_sdk_liquid.Base.{ℕ, String, Bool, true, Option, some, none, List, ◌≡◌, refl}
use breez_sdk_liquid.Base.Exec.{change}
use breez_sdk_liquid.Model.{ChainSwap}
use breez_sdk_liquid.Persist.{Table, update_where}
use breez_sdk_liquid.Persist.Sound as Any
use breez_sdk_liquid.Chain.Store.{
  Db, Action, schema, touch, id_is, unclaimed, claimed_by, update_chain_swap_accept_zero_conf,
  update_actual_payer_amount, update_accepted_receiver_amount, set_chain_swap_refund_address,
  set_chain_swap_auto_accepted_fees, set_chain_swap_claim, unset_chain_swap_claim_tx_id,
}
use breez_sdk_liquid.Chain.Moves.{Moves, aside-Moves, motion}

abbrev pub rows_of : Db → List ChainSwap
rows_of db = db.swaps

-- An action that a valid table survives, each of its rows moving as it may.
abbrev pub Sound : Table → {B : Type 0} → Action B → Type 0
Sound table action = Any.Sound rows_of (schema table) (motion table) action

module _ (table : Table) where
  aside :
      {B : Type 0} (action : Action B) (test : ChainSwap → Bool) (set : ChainSwap → ChainSwap)
      → ((db : Db) → (action db).1.swaps ≡ update_where (schema table) test set db.swaps)
      → ((s : ChainSwap) → Moves s (touch table (set s)))
      → Sound table action
  aside action test set written moves =
      Any.update-Sound rows_of (schema table) (motion table) action test set written moves

  pub accept_zero_conf-Sound :
      (id : String) (accept : Bool)
      → Sound table (update_chain_swap_accept_zero_conf table id accept)
  unfolding update_chain_swap_accept_zero_conf change
  accept_zero_conf-Sound id accept =
      aside (update_chain_swap_accept_zero_conf table id accept) (id_is table id)
        (λ s. record s { accept_zero_conf = accept }) (λ db. refl)
        (λ s. aside-Moves s _ refl refl refl refl refl refl refl refl)

  pub actual_payer-Sound :
      (id : String) (amount : ℕ) → Sound table (update_actual_payer_amount table id amount)
  unfolding update_actual_payer_amount change
  actual_payer-Sound id amount =
      aside (update_actual_payer_amount table id amount) (id_is table id)
        (λ s. record s { actual_payer_amount_sat = some amount }) (λ db. refl)
        (λ s. aside-Moves s _ refl refl refl refl refl refl refl refl)

  pub accepted_receiver-Sound :
      (id : String) (amount : Option ℕ)
      → Sound table (update_accepted_receiver_amount table id amount)
  unfolding update_accepted_receiver_amount change
  accepted_receiver-Sound id amount =
      aside (update_accepted_receiver_amount table id amount) (id_is table id)
        (λ s. record s { accepted_receiver_amount_sat = amount }) (λ db. refl)
        (λ s. aside-Moves s _ refl refl refl refl refl refl refl refl)

  pub refund_address-Sound :
      (id address : String) → Sound table (set_chain_swap_refund_address table id address)
  unfolding set_chain_swap_refund_address change
  refund_address-Sound id address =
      aside (set_chain_swap_refund_address table id address) (id_is table id)
        (λ s. record s { refund_address = some address }) (λ db. refl)
        (λ s. aside-Moves s _ refl refl refl refl refl refl refl refl)

  pub auto_accepted-Sound : (id : String) → Sound table (set_chain_swap_auto_accepted_fees table id)
  unfolding set_chain_swap_auto_accepted_fees change
  auto_accepted-Sound id =
      aside (set_chain_swap_auto_accepted_fees table id) (id_is table id)
        (λ s. record s { auto_accepted_fees = true }) (λ db. refl)
        (λ s. aside-Moves s _ refl refl refl refl refl refl refl refl)

  pub set_claim-Sound :
      (id : String) (address : Option String) (tx_id : String)
      → Sound table (set_chain_swap_claim table id address tx_id)
  unfolding set_chain_swap_claim
  set_claim-Sound id address tx_id =
      aside (set_chain_swap_claim table id address tx_id) (unclaimed table id)
        (λ s. record s { claim_address = address; claim_tx_id = some tx_id }) (λ db. refl)
        (λ s. aside-Moves s _ refl refl refl refl refl refl refl refl)

  pub unset_claim-Sound :
      (id tx_id : String) → Sound table (unset_chain_swap_claim_tx_id table id tx_id)
  unfolding unset_chain_swap_claim_tx_id change
  unset_claim-Sound id tx_id =
      aside (unset_chain_swap_claim_tx_id table id tx_id) (claimed_by table id tx_id)
        (λ s. record s { claim_tx_id = none }) (λ db. refl)
        (λ s. aside-Moves s _ refl refl refl refl refl refl refl refl)

pub ruleset store_rules = (
  Any.sound_rules, accept_zero_conf-Sound, actual_payer-Sound, accepted_receiver-Sound,
  refund_address-Sound, auto_accepted-Sound, set_claim-Sound, unset_claim-Sound,
)
