-- ===== src/Tests/SendSwaps.antt =====
-- The handler of send swaps on a table of one swap.
use breez_sdk_liquid.Base.{true, String, Option, some, none, [], ◌∷◌, ◌≡◌, refl, if◌then◌else◌}
use breez_sdk_liquid.Base.Text.{str_eq}
use breez_sdk_liquid.Base.Result.{ok, err}
use breez_sdk_liquid.Model.{SendSwap, pending, refund_pending}
use breez_sdk_liquid.Model.Errors.{PaymentError, generic, anyhow}
use breez_sdk_liquid.Utils.{blocks, is_locktime_expired}
use breez_sdk_liquid.Send.Store.{fetch_send_swap_by_id, Db, Table, ◌>>=◌}
use breez_sdk_liquid.Send.Store.Insert.{insert_or_update_send_swap, insert_or_ignore}
use breez_sdk_liquid.Persist.Rows.{Rows}
use breez_sdk_liquid.Send.Transition.{validate_state_transition}
use breez_sdk_liquid.Send.Handler.{
  Services, LiquidTx, SdkTransaction, CreateSubmarineResponse, fetch, update_swap_info,
  broadcast_tx, try_lockup, refund_address_of, refund, check_swap_expiry, try_refund, check_refunds,
}
use breez_sdk_liquid.Send.Handler.Status.{SubSwapStates, on_new_status}
use breez_sdk_liquid.Send.Moves.{Moves}
use breez_sdk_liquid.Send.Moves.Refunds.{check_refunds-Moves}
use breez_sdk_liquid.Send.Moves.Status.{on_new_status-Moves}
use breez_sdk_liquid.Send.Safety.Lockup.{try_lockup-once}
use breez_sdk_liquid.Send.Safety.Lockup.Rollback.{RolledBack, try_lockup-rollback}
use breez_sdk_liquid.Send.Safety.Lockup.Success.{try_lockup-completes}
use breez_sdk_liquid.Send.Safety.Refund.{try_refund-unrecorded}
use breez_sdk_liquid.Send.Safety.Version.{second_update-rejected}
use breez_sdk_liquid.Persist.{send_record}
use breez_sdk_liquid.Persist.Outgoing.{
  SyncOutgoingChanges, check_commit_update, pending_fields, commit_change,
  remove_sync_outgoing_changes,
}
use breez_sdk_liquid.Persist.Outgoing.Pending.{commit_change-pending}
use breez_sdk_liquid.Tests.Data.{invoice_lib, send_swap}

abbrev table : Table
table = record {
  id_hash = λ id. "hash of s";
  sync_enabled = true;
  record_id = λ kind id. "record";
  now = 600;
}

abbrev waiting : SyncOutgoingChanges
waiting = record {
  record_id = "record";
  data_id = "s";
  record_type = send_record;
  commit_time = 500;
  updated_fields = some ("preimage" ∷ []);
}

commit_change-pending_example :
    (pending_fields "record"
        (commit_change table send_record "s" (some ("lockup_tx_id", [])) (waiting ∷ []))
      ≡ "preimage" ∷ ("lockup_tx_id" ∷ []))
    × (pending_fields "record" (commit_change table send_record "s" none (waiting ∷ [])) ≡ [])
    × (pending_fields "record" (
          remove_sync_outgoing_changes
            ("record" ∷ [])
            (commit_change table send_record "s" (some ("lockup_tx_id", [])) (waiting ∷ [])))
        ≡ [])
    × (check_commit_update "record" 500
          (commit_change table send_record "s" (some ("lockup_tx_id", [])) (waiting ∷ []))
        ≡ err anyhow)
commit_change-pending_example =
    commit_change-pending table send_record "s" ("lockup_tx_id", []) 500 (waiting ∷ []) refl

abbrev lockup_tx : LiquidTx
lockup_tx = record { txid = "lock2"; fees_sat = 20 }

abbrev refund_tx : LiquidTx
refund_tx = record { txid = "refund"; fees_sat = 20 }

-- The chain service takes any transaction but the lockup.
abbrev services : Services
services = record {
  table = table;
  invoice_lib = invoice_lib;
  decrypt_success_action = λ cipher preimage. ok cipher;
  build_tx_or_drain_tx = λ address amount. ok lockup_tx;
  next_unused_address = ok "unused";
  tip = 100;
  from_height = λ height. ok (blocks height);
  broadcast = λ (tx : LiquidTx). if str_eq tx.txid "lock2" then err anyhow else ok tx.txid;
  get_script_utxos = λ script. ok [];
  create_refund_tx = λ swap address utxos is_cooperative. ok (SdkTransaction.liquid refund_tx);
  get_send_claim_tx_details = λ swap. ok "p";
  claim_send_swap_cooperative = λ swap response address. ok tt;
  get_submarine_preimage = λ id. ok "p";
  get_swap_script = λ swap. ok record { locktime = blocks 2000; script_pubkey = ok "script" };
  now = 5000;
  recover_from_onchain = λ swap. ok swap;
}

abbrev parse : String → Option SubSwapStates
parse status = some SubSwapStates.swap_expired

abbrev store : SendSwap → Db
store s = record {
  swaps = s ∷ [];
  lnurl_infos = [];
  payments = [];
  sync_outgoing = [];
  notified = [];
  broadcasts = [];
}

-- A swap that has no lockup, and one whose refund is pending.
abbrev unlocked_swap : SendSwap
unlocked_swap = record send_swap { lockup_tx_id = none }

abbrev refunding_swap : SendSwap
refunding_swap = record send_swap { state = refund_pending; refund_address = some "lq1" }

abbrev response : CreateSubmarineResponse
response = record { expected_amount = 1000; address = "lq2" }

on_new_status-Moves_example :
    Rows Moves
      (send_swap ∷ [])
      (on_new_status services parse "s" "swap.expired" (store send_swap)).1.swaps
on_new_status-Moves_example =
    on_new_status-Moves services parse "s" "swap.expired" (λ e. cc) (store send_swap) (tt, tt)

check_refunds-Moves_example :
    Rows Moves (send_swap ∷ []) (check_refunds services (store send_swap)).1.swaps
check_refunds-Moves_example = check_refunds-Moves services (store send_swap) (tt, tt)

try_lockup-once_example :
    (failure : PaymentError) × (try_lockup services unlocked_swap response (store send_swap)
      ≡ (err failure, store send_swap))
try_lockup-once_example =
    try_lockup-once services unlocked_swap response (store send_swap) (refl, tt)

try_lockup-rollback_example :
    RolledBack
      (store unlocked_swap)
      (try_lockup services unlocked_swap response (store unlocked_swap))
try_lockup-rollback_example =
    try_lockup-rollback services unlocked_swap response (store unlocked_swap) (tt, tt) refl refl

try_refund-unrecorded_example :
    (try_refund services refunding_swap (store refunding_swap)).1.swaps ≡ refunding_swap ∷ []
try_refund-unrecorded_example =
    try_refund-unrecorded services refunding_swap (store refunding_swap) refl refl refl

-- In that run the refund was broadcast.
unrecorded_refund-broadcast :
    (try_refund services refunding_swap (store refunding_swap)).1.broadcasts ≡ "refund" ∷ []
unfolding try_refund refund refund_address_of broadcast_tx check_swap_expiry is_locktime_expired
    update_swap_info fetch ◌>>=◌ validate_state_transition
unrecorded_refund-broadcast = refl

second_update-rejected_example :
    let db' = (insert_or_update_send_swap table send_swap (store send_swap)).1 in
    insert_or_update_send_swap table send_swap db' ≡ (err generic, db')
unfolding insert_or_update_send_swap insert_or_ignore
second_update-rejected_example =
    second_update-rejected table send_swap send_swap refl refl (store send_swap) _ refl

abbrev broadcasting : Services
broadcasting = record services { broadcast = λ (tx : LiquidTx). ok tx.txid }

try_lockup-completes_example :
    (db' : Db) × (t : SendSwap) × (try_lockup broadcasting unlocked_swap response
        (store unlocked_swap)
      ≡ (ok lockup_tx, db'))
    × (db'.broadcasts ≡ "lock2" ∷ [])
    × (fetch_send_swap_by_id table "s" db'.swaps ≡ some t)
    × (t.state ≡ pending)
    × (t.lockup_tx_id ≡ some "lock2")
unfolding validate_state_transition
try_lockup-completes_example =
    try_lockup-completes broadcasting unlocked_swap response (store unlocked_swap)
      {s = unlocked_swap} {tx = lockup_tx} {tx_id = "lock2"} (((λ e. refl), tt), refl) refl refl
      refl refl refl refl
