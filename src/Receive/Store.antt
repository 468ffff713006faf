-- ===== src/Receive/Store.antt =====
-- lib/core/src/persist/receive.rs: the table of receive swaps, with what else the receive swap
-- handler writes.
pub mod Insert
use breez_sdk_liquid.Base.{
  ℕ, String, Bool, false, not, ◌&&◌, ◌||◌, Option, some, none, List, ◌∷◌, ◌≡◌, refl, if◌then◌else◌,
  ◌==◌, is_none, or_else, unwrap_or, filter, length,
}
use breez_sdk_liquid.Base.Text.{str_eq}
use breez_sdk_liquid.Persist.{touch_metadata, receive_record}
use breez_sdk_liquid.Persist.Outgoing.{Fields, SyncOutgoingChanges, commit_change}
use breez_sdk_liquid.Base.Result.{ok, err}
use breez_sdk_liquid.Base.Exec.{Exec, change}
use breez_sdk_liquid.Model.{PaymentState, state_eq, created, pending, ReceiveSwap}
use breez_sdk_liquid.Model.Errors.{PaymentError, already_claimed}
use breez_sdk_liquid.Persist.{Table, Schema, has_id, update_where}

pub record Db : Type 0 where
  -- the rows of `receive_swaps`, ordered by `created_at`
  pub swaps : List ReceiveSwap
  -- the rows of `reserved_addresses`: an address and the height at which it expires
  pub reserved_addresses : List (String × ℕ)
  -- the transaction ids and amounts of the payments that were inserted, the latest first
  pub payments : List (String × ℕ)
  -- the rows of `sync_outgoing`
  pub sync_outgoing : List SyncOutgoingChanges
  -- the ids sent to the subscribers, the latest first
  pub notified : List String
  -- the ids of the claim transactions broadcast, the latest first
  pub broadcasts : List String
  -- the ids of the swapper's lockup transactions that were broadcast, the latest first
  pub lockup_broadcasts : List String
  -- `ReceiveSwapHandler::claiming_swaps`
  pub claiming_swaps : List String

abbrev pub Action : Type 0 → Type 0
Action A = Exec PaymentError Db A

abbrev pub touch : Table → ReceiveSwap → ReceiveSwap
touch table s = record s { metadata = touch_metadata table s.metadata }

abbrev pub schema : Table → Schema ReceiveSwap
schema table = record {
  id = λ s. s.id;
  id_hash = table.id_hash;
  touch = touch table;
  touch-id = λ s. refl;
}

abbrev pub commit_outgoing : Table → String → Option Fields → Db → Db
commit_outgoing table id fields db = record db {
  sync_outgoing = commit_change table receive_record id fields db.sync_outgoing;
}

-- The transactions that are known are not overwritten.
abbrev pub set_update :
    PaymentState
    → Option String
    → Option String
    → Option String
    → Option ℕ
    → ReceiveSwap
    → ReceiveSwap
set_update to_state claim_tx_id lockup_tx_id mrh_tx_id mrh_amount_sat s = record s {
  claim_tx_id = or_else s.claim_tx_id claim_tx_id;
  lockup_tx_id = or_else s.lockup_tx_id lockup_tx_id;
  mrh_tx_id = or_else s.mrh_tx_id mrh_tx_id;
  payer_amount_sat = unwrap_or mrh_amount_sat s.payer_amount_sat;
  receiver_amount_sat = unwrap_or mrh_amount_sat s.receiver_amount_sat;
  state = to_state;
}

abbrev pub delete_address : String → Db → Db
delete_address address db = record db {
  reserved_addresses =
      filter (λ (row : String × ℕ). not (str_eq row.0 address)) db.reserved_addresses;
}

unfoldable pub delete_reserved_address : String → Action (Unit {0})
delete_reserved_address address = change (delete_address address)

module _ (table : Table) where
  abbrev pub id_is : String → ReceiveSwap → Bool
  id_is id = has_id (schema table) id

  abbrev pub unclaimed : String → ReceiveSwap → Bool
  unclaimed id s = id_is id s && is_none s.claim_tx_id

  abbrev pub claimed_by : String → String → ReceiveSwap → Bool
  claimed_by id claim_tx_id s =
      id_is id s && elim (s.claim_tx_id) [ some tx ↦ str_eq tx claim_tx_id | none ↦ Bool.false ]

  abbrev pub update_rows : (ReceiveSwap → Bool) → (ReceiveSwap → ReceiveSwap) → Db → Db
  update_rows test set db = record db { swaps = update_where (schema table) test set db.swaps }

  unfoldable pub set_receive_swap_claim_address : String → String → Action (Unit {0})
  set_receive_swap_claim_address id address =
      change (λ db. update_rows (id_is id) (λ s. record s { claim_address = some address }) db)

  unfoldable pub set_receive_swap_claim_tx_id : String → String → Action (Unit {0})
  set_receive_swap_claim_tx_id id tx_id db =
      let row_count = length (filter (unclaimed id) db.swaps) in
      let db' = update_rows (unclaimed id) (λ s. record s { claim_tx_id = some tx_id }) db in
      (if row_count == 1 then ok tt else err already_claimed, db')

  unfoldable pub unset_receive_swap_claim_tx_id : String → String → Action (Unit {0})
  unset_receive_swap_claim_tx_id id tx_id =
      change (λ db. update_rows (claimed_by id tx_id) (λ s. record s { claim_tx_id = none }) db)

  unfoldable pub try_handle_receive_swap_update :
      String
      → PaymentState
      → Option String
      → Option String
      → Option String
      → Option ℕ
      → Action (Unit {0})
  try_handle_receive_swap_update id to_state claim_tx_id lockup_tx_id mrh_tx_id mrh_amount_sat =
      change (λ db.
        update_rows (id_is id)
          (set_update to_state claim_tx_id lockup_tx_id mrh_tx_id mrh_amount_sat) db)

abbrev pub list_ongoing_receive_swaps : List ReceiveSwap → List ReceiveSwap
list_ongoing_receive_swaps rows =
    filter (λ (s : ReceiveSwap). state_eq s.state created || state_eq s.state pending) rows
