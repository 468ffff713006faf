-- ===== src/Receive/Store/Insert.antt =====
-- lib/core/src/persist/receive.rs: a receive swap inserted, or updated if its version is the one of
-- the row. A failure rolls the transaction back. A new row has the version 0 and counts as local.
use breez_sdk_liquid.Base.{
  String, Bool, true, ◌&&◌, Option, some, none, List, [], ◌∷◌, if◌then◌else◌, ◌==◌, any, is_some,
}
use breez_sdk_liquid.Base.Text.{str_eq}
use breez_sdk_liquid.Base.Result.{ok, err}
use breez_sdk_liquid.Model.{ReceiveSwap}
use breez_sdk_liquid.Model.Errors.{generic}
use breez_sdk_liquid.Persist.{insert_by_created_at, Table, fetch_by_id, update_where}
use breez_sdk_liquid.Receive.Store.{Db, Action, schema, commit_outgoing, id_is, delete_address}
use breez_sdk_liquid.Sync.Receive.{receive_updated_fields}

-- The row that INSERT makes of a swap.
abbrev new_row : ReceiveSwap → ReceiveSwap
new_row s = record s {
  bolt12_offer = none;
  description = none;
  payer_note = none;
  claim_address = none;
  claim_tx_id = none;
  lockup_tx_id = none;
  mrh_tx_id = none;
  metadata = record { version = 0; last_updated_at = 0; is_local = true };
}

abbrev same_version : ReceiveSwap → ReceiveSwap → Bool
same_version swap row = str_eq row.id swap.id && (row.metadata.version == swap.metadata.version)

abbrev set_mutable : ReceiveSwap → ReceiveSwap → ReceiveSwap
set_mutable swap row = record row {
  bolt12_offer = swap.bolt12_offer;
  description = swap.description;
  payer_note = swap.payer_note;
  claim_address = swap.claim_address;
  claim_tx_id = swap.claim_tx_id;
  lockup_tx_id = swap.lockup_tx_id;
  mrh_tx_id = swap.mrh_tx_id;
  payer_amount_sat = swap.payer_amount_sat;
  receiver_amount_sat = swap.receiver_amount_sat;
  state = swap.state;
}

-- The sync is triggered for a new swap, and for one with fields that changed.
abbrev commit_if_needed : Table → Option (List String) → String → Db → Db
commit_if_needed table none id db = commit_outgoing table id none db
commit_if_needed table (some []) id db = db
commit_if_needed table (some (field ∷ fields)) id db =
    commit_outgoing table id (some (field, fields)) db

-- The address that the swap reserved is free once the swap was paid to it.
abbrev release_address : ReceiveSwap → Db → Db
release_address swap db = if is_some swap.mrh_tx_id then delete_address swap.mrh_address db else db

module _ (table : Table) where
  unfoldable pub insert_or_update_receive_swap : ReceiveSwap → Action (Unit {0})
  insert_or_update_receive_swap swap db =
      let fields = receive_updated_fields (fetch_by_id (schema table) swap.id db.swaps) swap in
      let rows =
        if any (id_is table swap.id) db.swaps
        then db.swaps
        else insert_by_created_at (λ (s : ReceiveSwap). s.created_at) (new_row swap) db.swaps in
      if any (same_version swap) rows
      then (
        ok tt,
        commit_if_needed table fields swap.id (
            release_address swap (record db {
              swaps = update_where (schema table) (same_version swap) (set_mutable swap) rows;
            })),
      )
      else (err generic, db)
