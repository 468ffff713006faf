-- ===== src/Send/Store/Insert.antt =====
-- lib/core/src/persist/send.rs: a send swap inserted, or updated if its version is the one of the
-- row. A failure rolls the transaction back. A new row has the version 0 and counts as local.
use breez_sdk_liquid.Base.{
  String, Bool, true, ◌&&◌, ◌||◌, not, Option, some, none, List, [], ◌∷◌, if◌then◌else◌, ◌==◌,
  is_some, any,
}
use breez_sdk_liquid.Persist.{insert_by_created_at}
use breez_sdk_liquid.Base.Text.{str_eq, opt_eq}
use breez_sdk_liquid.Base.Result.{ok, err}
use breez_sdk_liquid.Model.{SendSwap}
use breez_sdk_liquid.Model.Errors.{generic}
use breez_sdk_liquid.Send.Store.{
  Db, Table, Action, update_where, fetch_send_swap_by_id, commit_outgoing,
}

-- `SendSyncData::updated_fields`: `none` for a swap that is new.
unfoldable pub updated_fields : Option SendSwap → SendSwap → Option (List String)
updated_fields none update = none
updated_fields (some swap) update =
    if is_some update.preimage && not (opt_eq str_eq update.preimage swap.preimage)
    then some ("preimage" ∷ [])
    else some []

-- The row that INSERT makes of a swap.
abbrev pub new_row : SendSwap → SendSwap
new_row s = record s {
  description = none;
  preimage = none;
  lockup_tx_id = none;
  refund_address = none;
  refund_tx_id = none;
  metadata = record { version = 0; last_updated_at = 0; is_local = true };
}

abbrev pub same_id : SendSwap → SendSwap → Bool
same_id swap row = str_eq row.id swap.id

-- The id is the primary key and the invoice is unique.
abbrev pub conflicts : SendSwap → SendSwap → Bool
conflicts swap row = same_id swap row || str_eq row.invoice swap.invoice

-- INSERT ... ON CONFLICT DO NOTHING
unfoldable pub insert_or_ignore : SendSwap → List SendSwap → List SendSwap
insert_or_ignore swap rows =
    if any (conflicts swap) rows
    then rows
    else insert_by_created_at (λ (s : SendSwap). s.created_at) (new_row swap) rows

abbrev pub same_version : SendSwap → SendSwap → Bool
same_version swap row = same_id swap row && (row.metadata.version == swap.metadata.version)

abbrev pub set_mutable : SendSwap → SendSwap → SendSwap
set_mutable swap row = record row {
  description = swap.description;
  preimage = swap.preimage;
  lockup_tx_id = swap.lockup_tx_id;
  refund_address = swap.refund_address;
  refund_tx_id = swap.refund_tx_id;
  state = swap.state;
}

-- The sync is triggered for a new swap, and for one with fields that changed.
abbrev pub commit_if_needed : Table → Option (List String) → String → Db → Db
commit_if_needed table none id db = commit_outgoing table id none db
commit_if_needed table (some []) id db = db
commit_if_needed table (some (field ∷ fields)) id db =
    commit_outgoing table id (some (field, fields)) db

module _ (table : Table) where
  unfoldable pub insert_or_update_send_swap : SendSwap → Action (Unit {0})
  unfolding insert_or_ignore
  insert_or_update_send_swap swap db =
      let fields = updated_fields (fetch_send_swap_by_id table swap.id db.swaps) swap in
      let rows = insert_or_ignore swap db.swaps in
      if any (same_version swap) rows
      then (
        ok tt,
        commit_if_needed table fields swap.id
            (record db { swaps = update_where table (same_version swap) (set_mutable swap) rows }),
      )
      else (err generic, db)
