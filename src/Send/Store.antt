-- ===== src/Send/Store.antt =====
-- lib/core/src/persist/send.rs: the table of send swaps, with what else the send swap handler
-- writes. An operation is a function of the database that returns a result and the new database,
-- also where it fails, since what was written stays written. Errors of SQLite itself are left out.
pub mod Run
pub mod Insert
pub use breez_sdk_liquid.Persist.{touch_metadata, Table}
use breez_sdk_liquid.Base.{
  refl, ℕ, String, Bool, true, false, ◌&&◌, ◌||◌, Option, some, none, List, [], ◌∷◌, map,
  if◌then◌else◌, ◌==◌, is_some, is_none, or_else, find, filter, length,
}
use breez_sdk_liquid.Base.Text.{str_eq}
use breez_sdk_liquid.Persist as Persist
use breez_sdk_liquid.Persist.{Schema, send_record}
use breez_sdk_liquid.Persist.Outgoing.{Fields, SyncOutgoingChanges, commit_change}
use breez_sdk_liquid.Base.Result.{Result, ok, err}
use breez_sdk_liquid.Model.{PaymentState, state_eq, pending, refund_pending, SendSwap, SwapMetadata}
use breez_sdk_liquid.Model.Errors.{PaymentError, payment_in_progress}

-- What the payment details keep of an LNURL payment.
pub data SuccessAction : Type 0 where
  aes : String → SuccessAction
  other : String → SuccessAction

pub record LnUrlInfo : Type 0 where
  pub lnurl_pay_success_action : Option String
  pub lnurl_pay_unprocessed_success_action : Option SuccessAction

pub record Db : Type 0 where
  -- the rows of `send_swaps`, ordered by `created_at`
  pub swaps : List SendSwap
  -- the LNURL part of `payment_details`, by transaction id
  pub lnurl_infos : List (String × LnUrlInfo)
  -- the transaction ids and amounts of the payments that were inserted, the latest first
  pub payments : List (String × ℕ)
  -- the rows of `sync_outgoing`
  pub sync_outgoing : List SyncOutgoingChanges
  -- the swap ids sent to the subscribers, the latest first
  pub notified : List String
  -- the ids of the transactions broadcast, the latest first
  pub broadcasts : List String

abbrev pub Action : Type 0 → Type 0
Action A = Db → Result PaymentError A × Db

module _ {A : Type 0} where
  abbrev pub done : A → Action A
  done value db = (ok value, db)

  abbrev pub fail : PaymentError → Action A
  fail failure db = (err failure, db)

  abbrev pub lift : Result PaymentError A → Action A
  lift result db = (result, db)

  -- The result as a value: the caller decides what to do about a failure.
  abbrev pub attempt : Action A → Action (Result PaymentError A)
  attempt action db = let (result, db') = action db in (ok result, db')

abbrev pub change : (Db → Db) → Action (Unit {0})
change f db = (ok tt, f db)

infixl 5 ◌>>=◌ ◌>>◌
unfoldable pub ◌>>=◌ : {A B : Type 0} → Action A → (A → Action B) → Action B
◌>>=◌ action next db =
    let (result, db') = action db in
    elim result [ err failure ↦ (err failure, db') | ok value ↦ next value db' ]

abbrev pub ◌>>◌ : {A B : Type 0} → Action A → Action B → Action B
first >> second = first >>= λ value. second

abbrev pub has_id : String → SendSwap → Bool
has_id id s = str_eq s.id id

-- The fields that `get_updated_fields!(preimage)` names.
abbrev pub updated_preimage : Option String → Option Fields
updated_preimage preimage = if is_some preimage then some ("preimage", []) else none

abbrev pub commit_outgoing : Table → String → Option Fields → Db → Db
commit_outgoing table id fields db = record db {
  sync_outgoing = commit_change table send_record id fields db.sync_outgoing;
}

-- A preimage or a transaction id that is there is not overwritten.
abbrev pub set_update :
    PaymentState → Option String → Option String → Option String → SendSwap → SendSwap
set_update to_state preimage lockup_tx_id refund_tx_id s = record s {
  preimage = or_else s.preimage preimage;
  lockup_tx_id = or_else s.lockup_tx_id lockup_tx_id;
  refund_tx_id = or_else s.refund_tx_id refund_tx_id;
  state = to_state;
}

abbrev pub unlocked : String → SendSwap → Bool
unlocked id s = has_id id s && is_none s.lockup_tx_id

abbrev pub locked_by : String → String → SendSwap → Bool
locked_by id lockup_tx_id s =
    has_id id s && elim (s.lockup_tx_id) [ some tx ↦ str_eq tx lockup_tx_id | none ↦ false ]

abbrev pub touch : Table → SendSwap → SendSwap
touch table s = record s { metadata = touch_metadata table s.metadata }

abbrev pub schema : Table → Schema SendSwap
schema table = record {
  id = λ s. s.id;
  id_hash = table.id_hash;
  touch = touch table;
  touch-id = λ s. refl;
}

module _ (table : Table) where
  abbrev pub update_where :
      (SendSwap → Bool) → (SendSwap → SendSwap) → List SendSwap → List SendSwap
  update_where test set rows = Persist.update_where (schema table) test set rows

  abbrev pub fetch_send_swap_by_id : String → List SendSwap → Option SendSwap
  fetch_send_swap_by_id id rows = Persist.fetch_by_id (schema table) id rows

  abbrev pub update_rows : (SendSwap → Bool) → (SendSwap → SendSwap) → Db → Db
  update_rows test set db = record db { swaps = update_where test set db.swaps }

  unfoldable pub try_handle_send_swap_update :
      String → PaymentState → Option String → Option String → Option String → Action (Unit {0})
  try_handle_send_swap_update id to_state preimage lockup_tx_id refund_tx_id = change (λ db.
      commit_outgoing table id (updated_preimage preimage)
        (update_rows (has_id id) (set_update to_state preimage lockup_tx_id refund_tx_id) db))

  unfoldable pub set_send_swap_refund_address : String → String → Action (Unit {0})
  set_send_swap_refund_address id refund_address =
      change
        (λ db. update_rows (has_id id) (λ s. record s { refund_address = some refund_address }) db)

  unfoldable pub set_send_swap_lockup_tx_id : String → String → Action (Unit {0})
  set_send_swap_lockup_tx_id id lockup_tx_id db =
      let row_count = length (filter (unlocked id) db.swaps) in
      let db' = update_rows (unlocked id) (λ s. record s { lockup_tx_id = some lockup_tx_id }) db in
      (if row_count == 1 then ok tt else err payment_in_progress, db')

  unfoldable pub unset_send_swap_lockup_tx_id : String → String → Action (Unit {0})
  unset_send_swap_lockup_tx_id id lockup_tx_id =
      change
        (λ db. update_rows (locked_by id lockup_tx_id) (λ s. record s { lockup_tx_id = none }) db)

abbrev pub list_pending_send_swaps : List SendSwap → List SendSwap
list_pending_send_swaps rows =
    filter (λ (s : SendSwap). state_eq s.state pending || state_eq s.state refund_pending) rows
