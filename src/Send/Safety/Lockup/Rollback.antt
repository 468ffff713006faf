-- ===== src/Send/Safety/Lockup/Rollback.antt =====
-- A lockup whose broadcast fails is undone.
use breez_sdk_liquid.Base.{
  String, true, false, some, none, List, [], ◌∷◌, ◌≡◌, refl, ◌∙◌, inl, inr, All, Bool-cases,
  is_some, is_none, if◌then◌else◌, arith,
}
use breez_sdk_liquid.Base.Text.{str_eq_refl}
use breez_sdk_liquid.Base.Result.{Result, ok, err, is_ok}
use breez_sdk_liquid.Persist.{touch_metadata}
use breez_sdk_liquid.Model.{SendSwap}
use breez_sdk_liquid.Model.Errors.{PaymentError, generic, payment_in_progress, AnyError}
use breez_sdk_liquid.Send.Store.{
  schema, Db, Table, lift, attempt, ◌>>=◌, has_id, unlocked, locked_by, update_where,
  set_send_swap_lockup_tx_id, unset_send_swap_lockup_tx_id,
}
use breez_sdk_liquid.Persist.Rows.{Rows, no_rows, row, Rows-refl, IsValid}
use breez_sdk_liquid.Send.Store.Run.{bind-done}
use breez_sdk_liquid.Send.Handler.{
  Services, LiquidTx, CreateSubmarineResponse, broadcast_tx, try_lockup, undo_lockup,
}
use breez_sdk_liquid.Send.Safety.Lockup.{try_lockup-once}
use breez_sdk_liquid.Send.Safety.Lockup.{IsFree, IsValid-lockable}

-- A row that has the same lockup transaction as before.
abbrev pub SameLockup : SendSwap → SendSwap → Type 0
SameLockup s t = (s.id ≡ t.id) × (s.lockup_tx_id ≡ t.lockup_tx_id)

module _ (table : Table) (id tx_id : String) where
  abbrev pub locked : List SendSwap → List SendSwap
  locked rows = update_where table (unlocked id) (λ s. record s { lockup_tx_id = some tx_id }) rows

  abbrev undone : List SendSwap → List SendSwap
  undone rows = update_where table (locked_by id tx_id) (λ s. record s { lockup_tx_id = none }) rows

  abbrev pub lock_row : SendSwap → SendSwap
  lock_row s =
      if unlocked id s
      then record s { lockup_tx_id = some tx_id; metadata = touch_metadata table s.metadata }
      else s

  abbrev undo_row : SendSwap → SendSwap
  undo_row s =
      if locked_by id tx_id s
      then record s { lockup_tx_id = none; metadata = touch_metadata table s.metadata }
      else s

  row-SameLockup :
      (s : SendSwap)
      → (has_id id s ≡ true → is_none s.lockup_tx_id ≡ true)
      → SameLockup s (undo_row (lock_row s))
  row-SameLockup s free = ground (arith, str_eq_refl tx_id)

  undone-Rows :
      (rows : List SendSwap)
      → All (λ (s : SendSwap). has_id id s ≡ true → is_none s.lockup_tx_id ≡ true) rows
      → Rows SameLockup rows (undone (locked rows))
  undone-Rows [] h = no_rows
  undone-Rows (s ∷ rows) (free, h) = row (row-SameLockup s free) (undone-Rows rows h)

-- How a failed lockup leaves the database: no broadcast, and each row with its lockup as before.
abbrev pub RolledBack : Db → Result PaymentError LiquidTx × Db → Type 0
RolledBack db (result, db') =
    (is_ok result ≡ false) × (db'.broadcasts ≡ db.broadcasts) × Rows SameLockup db.swaps db'.swaps

module _ (services : Services) where
  as_before :
      (db : Db) {failure : PaymentError} (end : Result PaymentError LiquidTx × Db)
      → end ≡ (err failure, db)
      → RolledBack db end
  as_before db end e = rw e (refl, refl, Rows-refl (λ s. (refl, refl)) db.swaps)

  abbrev pub after_lock : String → String → Db → Db
  after_lock id tx_id db = record db { swaps = locked services.table id tx_id db.swaps }

  pub set_lockup-free :
      (id tx_id : String) (db : Db)
      → IsFree id db.swaps
      → set_send_swap_lockup_tx_id services.table id tx_id db ≡ (ok tt, after_lock id tx_id db)
  unfolding set_send_swap_lockup_tx_id
  set_lockup-free id tx_id db (_, one) = rw one refl

  broadcast-fails :
      (tx : LiquidTx) (db : Db) {failure : AnyError}
      → services.broadcast tx ≡ err failure
      → attempt (broadcast_tx services tx) db ≡ (ok (err generic), db)
  unfolding broadcast_tx
  broadcast-fails tx db e = rw (e, broadcast_tx) refl

  undo-runs :
      (id tx_id : String) (db : Db)
      → undo_lockup services id tx_id db
        ≡ (err generic, record db { swaps = undone services.table id tx_id db.swaps })
  unfolding unset_send_swap_lockup_tx_id ◌>>=◌
  undo-runs id tx_id db = refl

  pub build-runs :
      (response : CreateSubmarineResponse) (db : Db) {tx : LiquidTx}
      → services.build_tx_or_drain_tx response.address response.expected_amount ≡ ok tx
      → lift (services.build_tx_or_drain_tx response.address response.expected_amount) db
        ≡ (ok tx, db)
  build-runs response db built = rw built refl

  failed_lockup-runs :
      (swap : SendSwap) (response : CreateSubmarineResponse) (db : Db) {tx : LiquidTx}
      {failure : AnyError}
      → IsFree swap.id db.swaps
      → is_some swap.lockup_tx_id ≡ false
      → services.build_tx_or_drain_tx response.address response.expected_amount ≡ ok tx
      → services.broadcast tx ≡ err failure
      → try_lockup services swap response db ≡ (
        err generic,
        record db {
          swaps =
              undone services.table swap.id tx.txid
                (locked services.table swap.id tx.txid db.swaps);
        },
      )
  unfolding try_lockup
  failed_lockup-runs swap response db {tx} free fresh built failed =
      let db1 = after_lock swap.id tx.txid db in
      rw (fresh, try_lockup)
        (bind-done _ _ db (build-runs response db built)
          ∙ (bind-done _ _ db (set_lockup-free swap.id tx.txid db free)
              ∙ (bind-done _ _ db1 (broadcast-fails tx db1 failed)
                  ∙ undo-runs swap.id tx.txid db1)))

  -- A lockup whose broadcast fails is undone, in a table whose ids are unique: the call fails,
  -- nothing counts as broadcast, and each row has the lockup transaction that it had before.
  pub try_lockup-rollback :
      (swap : SendSwap) (response : CreateSubmarineResponse) (db : Db) {tx : LiquidTx}
      {failure : AnyError}
      → IsValid (schema services.table) db.swaps
      → services.build_tx_or_drain_tx response.address response.expected_amount ≡ ok tx
      → services.broadcast tx ≡ err failure
      → RolledBack db (try_lockup services swap response db)
  unfolding try_lockup
  try_lockup-rollback swap response db {tx} v built failed =
      elim (IsValid-lockable services.table swap.id db.swaps v) [
        | inl h ↦ as_before db _ (try_lockup-once services swap response db h).1
        | inr (free, one) ↦ elim (Bool-cases (is_some swap.lockup_tx_id)) [
          | inl stale ↦
              as_before db {failure = payment_in_progress} (try_lockup services swap response db)
                (rw (stale, try_lockup) refl)
          | inr fresh ↦
              rw (failed_lockup-runs swap response db (free, one) fresh built failed)
                (refl, refl, undone-Rows services.table swap.id tx.txid db.swaps free)
        ]
      ]
