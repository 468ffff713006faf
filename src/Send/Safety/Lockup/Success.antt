-- ===== src/Send/Safety/Lockup/Success.antt =====
-- A lockup that is broadcast is recorded.
use breez_sdk_liquid.Base.{
  ℕ, String, true, false, some, none, List, [], ◌∷◌, ◌≡◌, refl, ◌∙◌, inl, inr, arith, All,
  Bool-cases, is_none, if◌then◌else◌,
}
use breez_sdk_liquid.Base.Result.{ok}
use breez_sdk_liquid.Persist.{touch_metadata}
use breez_sdk_liquid.Model.{SendSwap, pending}
use breez_sdk_liquid.Model.Equality.{send_swap_eq}
use breez_sdk_liquid.Send.Store.{
  schema, Db, Table, attempt, has_id, set_update, update_where, fetch_send_swap_by_id,
  try_handle_send_swap_update,
}
use breez_sdk_liquid.Persist.Rows.{Rows, no_rows, row, fetch-Rows}
use breez_sdk_liquid.Send.Store.Run.{bind-done}
use breez_sdk_liquid.Send.Handler.{
  Services, LiquidTx, CreateSubmarineResponse, fetch, update_swap_lnurl_info, notify_if_changed,
  update_swap_info, broadcast_tx, finish_lockup, try_lockup,
}
use breez_sdk_liquid.Send.Safety.Lockup.Rollback.{
  locked, lock_row, after_lock, set_lockup-free, build-runs,
}
use breez_sdk_liquid.Send.Safety.Lockup.{IsFree}
use breez_sdk_liquid.Send.Transition.{validate_state_transition}

-- A row with the id has got the lockup transaction.
abbrev Locked : String → String → SendSwap → SendSwap → Type 0
Locked id tx s t =
    (s.id ≡ t.id)
    × (s.state ≡ t.state)
    × (s.preimage ≡ t.preimage)
    × (has_id id s ≡ true → t.lockup_tx_id ≡ some tx)

-- A row with the id is pending and has the lockup transaction that it had.
abbrev Recorded : String → SendSwap → SendSwap → Type 0
Recorded id s t =
    (s.id ≡ t.id)
    × (s.preimage ≡ t.preimage)
    × (has_id id s ≡ true
        → (t.state ≡ pending)
          × ((tx : String) → s.lockup_tx_id ≡ some tx → t.lockup_tx_id ≡ some tx))

module _ (table : Table) (id tx : String) where
  lock_row-Locked :
      (s : SendSwap)
      → (has_id id s ≡ true → is_none s.lockup_tx_id ≡ true)
      → Locked id tx s (lock_row table id tx s)
  lock_row-Locked s free = ground arith

  locked-Rows :
      (rows : List SendSwap)
      → All (λ (s : SendSwap). has_id id s ≡ true → is_none s.lockup_tx_id ≡ true) rows
      → Rows (Locked id tx) rows (locked table id tx rows)
  locked-Rows [] h = no_rows
  locked-Rows (s ∷ rows) (free, h) = row (lock_row-Locked s free) (locked-Rows rows h)

  abbrev recorded_row : SendSwap → SendSwap
  recorded_row s =
      if has_id id s
      then record (set_update pending none (some tx) none s) {
        metadata = touch_metadata table s.metadata;
      }
      else s

  row-Recorded : (s : SendSwap) → Recorded id s (recorded_row s)
  row-Recorded s = ground arith

  update_where-Recorded :
      (rows : List SendSwap)
      → Rows
          (Recorded id)
          rows
          (update_where table (has_id id) (set_update pending none (some tx) none) rows)
  update_where-Recorded [] = no_rows
  update_where-Recorded (s ∷ rows) = row (row-Recorded s) (update_where-Recorded rows)

module _ (services : Services) where
  lnurl-skips :
      (s t : SendSwap) (db : Db)
      → s.preimage ≡ t.preimage
      → update_swap_lnurl_info services s t db ≡ (ok false, db)
  unfolding update_swap_lnurl_info
  lnurl-skips s t db same = ground arith

  notify-runs :
      (s t : SendSwap) (db : Db)
      → (db' : Db) × (notify_if_changed services s t false db ≡ (ok tt, db'))
        × (db'.swaps ≡ db.swaps)
        × (db'.broadcasts ≡ db.broadcasts)
  notify-runs s t db = elim (Bool-cases (send_swap_eq t s)) [
    | inl same ↦ (db, rw same refl, refl, refl)
    | inr changed ↦ (record db { notified = t.id ∷ db.notified }, rw changed refl, refl, refl)
  ]

  fetch-runs :
      (id : String) (db : Db) {s : SendSwap}
      → fetch_send_swap_by_id services.table id db.swaps ≡ some s
      → fetch services id db ≡ (ok s, db)
  unfolding fetch
  fetch-runs id db found = rw (found, fetch) refl

  -- The update of a row that may become pending goes through.
  update-runs :
      (id tx : String) (db : Db) {s : SendSwap}
      → fetch_send_swap_by_id services.table id db.swaps ≡ some s
      → validate_state_transition s.state pending ≡ ok tt
      → has_id id s ≡ true
      → s.lockup_tx_id ≡ some tx
      → (db' : Db) × (t : SendSwap) × (update_swap_info services id pending none (some tx) none db
          ≡ (ok tt, db'))
        × (db'.broadcasts ≡ db.broadcasts)
        × (fetch_send_swap_by_id services.table id db'.swaps ≡ some t)
        × (t.state ≡ pending)
        × (t.lockup_tx_id ≡ some tx)
  unfolding update_swap_info try_handle_send_swap_update
  update-runs id tx db {s} found valid mine lockup =
      let table = services.table in
      let action = try_handle_send_swap_update table id pending none (some tx) none in
      let db1 = (action db).1 in
      let (t, found', (_, kept, set)) =
        fetch-Rows (schema table) id {s = s} (λ s t r. r.0)
          (update_where-Recorded table id tx db.swaps) found in
      let (state, keeps) = set mine in
      let (db', notified, swaps, sent) = notify-runs s t db1 in
      (
        db',
        t,
        bind-done _ _ db (fetch-runs id db found)
            ∙ (bind-done _ _ db {value = tt} {db' = db} (rw valid refl)
                ∙ (bind-done action _ db {value = tt} {db' = db1} refl
                    ∙ (bind-done _ _ db1 (fetch-runs id db1 found')
                        ∙ (bind-done _ _ db1 (lnurl-skips s t db1 kept) ∙ notified)))),
        sent,
        rw swaps found',
        state,
        keeps tx lockup,
      )

  abbrev sent : LiquidTx → Db → Db
  sent tx db = record db { broadcasts = tx.txid ∷ db.broadcasts }

  broadcast-goes :
      (tx : LiquidTx) (db : Db) {tx_id : String}
      → services.broadcast tx ≡ ok tx_id
      → attempt (broadcast_tx services tx) db ≡ (ok (ok tx_id), sent tx db)
  unfolding broadcast_tx
  broadcast-goes tx db e = rw (e, broadcast_tx) refl

  abbrev paid : LiquidTx → ℕ → Db → Db
  paid tx amount db = record db { payments = (tx.txid, amount) ∷ db.payments }

  finish-runs :
      (id : String) (tx : LiquidTx) (amount : ℕ) (db db' : Db)
      → update_swap_info services id pending none (some tx.txid) none (paid tx amount db)
        ≡ (ok tt, db')
      → finish_lockup services id tx amount db ≡ (ok tx, db')
  finish-runs id tx amount db db' e =
      bind-done _ _ db {value = tt} {db' = paid tx amount db} refl
      ∙ bind-done _ _ (paid tx amount db) e

  -- `try_lockup` sends and records the lockup: given a row of the swap's id that has no lockup yet
  -- and may become pending, a transaction that can be built and that the chain service takes, the
  -- call returns that transaction, it was broadcast once, and the row is pending with its id.
  pub try_lockup-completes :
      (swap : SendSwap) (response : CreateSubmarineResponse) (db : Db) {s : SendSwap}
      {tx : LiquidTx} {tx_id : String}
      → IsFree swap.id db.swaps
      → fetch_send_swap_by_id services.table swap.id db.swaps ≡ some s
      → has_id swap.id s ≡ true
      → validate_state_transition s.state pending ≡ ok tt
      → swap.lockup_tx_id ≡ none
      → services.build_tx_or_drain_tx response.address response.expected_amount ≡ ok tx
      → services.broadcast tx ≡ ok tx_id
      → (db' : Db) × (t : SendSwap) × (try_lockup services swap response db ≡ (ok tx, db'))
        × (db'.broadcasts ≡ tx.txid ∷ db.broadcasts)
        × (fetch_send_swap_by_id services.table swap.id db'.swaps ≡ some t)
        × (t.state ≡ pending)
        × (t.lockup_tx_id ≡ some tx.txid)
  unfolding try_lockup
  try_lockup-completes swap response db {s} {tx} free found mine valid fresh built taken =
      let id = swap.id in
      let db1 = after_lock services id tx.txid db in
      let db2 = sent tx db1 in
      let amount = response.expected_amount in
      let (r, found1, (same_id, state, _, set)) =
        fetch-Rows (schema services.table) id {s = s} (λ s t r. r.0)
          (locked-Rows services.table id tx.txid db.swaps free.0) found in
      let (db', t, updates, sends, found', pends, lockup) =
        update-runs id tx.txid (paid tx amount db2) {s = r} found1 (rw (← state) valid)
          (rw (← same_id) mine) (set mine) in
      (
        db',
        t,
        rw (fresh, try_lockup)
            (bind-done _ _ db (build-runs services response db built)
              ∙ (bind-done _ _ db (set_lockup-free services id tx.txid db free)
                  ∙ (bind-done _ _ db1 (broadcast-goes tx db1 taken)
                      ∙ finish-runs id tx amount db2 db' updates))),
        sends,
        found',
        pends,
        lockup,
      )
