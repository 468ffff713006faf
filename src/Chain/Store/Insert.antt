-- ===== src/Chain/Store/Insert.antt =====
-- lib/core/src/persist/chain.rs: a chain swap inserted, or updated if its version is the one of the
-- row. A failure rolls the transaction back. A new row has the version 0 and counts as local.
use breez_sdk_liquid.Base.{
  String, Bool, false, ◌&&◌, Option, some, none, List, [], ◌∷◌, if◌then◌else◌, ◌==◌, any, true,
}
use breez_sdk_liquid.Base.Text.{str_eq}
use breez_sdk_liquid.Base.Result.{ok, err}
use breez_sdk_liquid.Model.{ChainSwap}
use breez_sdk_liquid.Model.Errors.{generic}
use breez_sdk_liquid.Persist.{insert_by_created_at, Table, fetch_by_id, update_where}
use breez_sdk_liquid.Chain.Store.{Db, Action, schema, commit_outgoing, id_is}
use breez_sdk_liquid.Sync.Chain.{chain_updated_fields}

-- The row that INSERT makes of a swap.
abbrev new_row : ChainSwap → ChainSwap
new_row s = record s {
  claim_address = none;
  refund_address = none;
  description = none;
  actual_payer_amount_sat = none;
  accepted_receiver_amount_sat = none;
  server_lockup_tx_id = none;
  user_lockup_tx_id = none;
  claim_tx_id = none;
  refund_tx_id = none;
  pair_fees_json = "";
  auto_accepted_fees = false;
  metadata = record { version = 0; last_updated_at = 0; is_local = true };
}

abbrev same_version : ChainSwap → ChainSwap → Bool
same_version swap row = str_eq row.id swap.id && (row.metadata.version == swap.metadata.version)

abbrev set_mutable : ChainSwap → ChainSwap → ChainSwap
set_mutable swap row = record row {
  description = swap.description;
  accept_zero_conf = swap.accept_zero_conf;
  server_lockup_tx_id = swap.server_lockup_tx_id;
  user_lockup_tx_id = swap.user_lockup_tx_id;
  claim_address = swap.claim_address;
  claim_tx_id = swap.claim_tx_id;
  refund_address = swap.refund_address;
  refund_tx_id = swap.refund_tx_id;
  pair_fees_json = swap.pair_fees_json;
  state = swap.state;
  actual_payer_amount_sat = swap.actual_payer_amount_sat;
  accepted_receiver_amount_sat = swap.accepted_receiver_amount_sat;
}

-- The sync is triggered for a new swap, and for one with fields that changed.
abbrev commit_if_needed : Table → Option (List String) → String → Db → Db
commit_if_needed table none id db = commit_outgoing table id none db
commit_if_needed table (some []) id db = db
commit_if_needed table (some (field ∷ fields)) id db =
    commit_outgoing table id (some (field, fields)) db

module _ (table : Table) where
  unfoldable pub insert_or_update_chain_swap : ChainSwap → Action (Unit {0})
  insert_or_update_chain_swap swap db =
      let fields = chain_updated_fields (fetch_by_id (schema table) swap.id db.swaps) swap in
      let rows =
        if any (id_is table swap.id) db.swaps
        then db.swaps
        else insert_by_created_at (λ (s : ChainSwap). s.created_at) (new_row swap) db.swaps in
      if any (same_version swap) rows
      then (
        ok tt,
        commit_if_needed table fields swap.id (record db {
          swaps = update_where (schema table) (same_version swap) (set_mutable swap) rows;
        }),
      )
      else (err generic, db)
