-- ===== src/Send/Safety/Lockup.antt =====
-- The lockup of a send swap is sent at most once.
pub mod Rollback
pub mod Success
use breez_sdk_liquid.Base.{
  ℕ, ◌≤◌, String, Bool, true, false, ◌&&◌, Option, some, none, List, [], ◌∷◌, ◌≡◌, refl, ◌∙◌, ◌⊎◌,
  inl, inr, arith, All, Bool-cases, is_some, is_none, filter, length, if◌then◌else◌, ◌==◌,
}
use breez_sdk_liquid.Base.Text.{str_eq, str_eq→eq, str_eq_refl}
use breez_sdk_liquid.Base.Result.{Result, ok, err, is_ok, Result-cases}
use breez_sdk_liquid.Model.{SendSwap}
use breez_sdk_liquid.Model.Errors.{PaymentError, payment_in_progress, generic, AnyError}
use breez_sdk_liquid.Send.Store.{
  schema, Db, Table, Action, fail, ◌>>=◌, has_id, unlocked, locked_by, update_where,
  set_send_swap_lockup_tx_id, unset_send_swap_lockup_tx_id,
}
use breez_sdk_liquid.Persist.Once.{filter-none, update-none, IsValid-open}
use breez_sdk_liquid.Persist.Rows.{Rows, no_rows, row, IsValid, NoClash}
use breez_sdk_liquid.Send.Store.Run.{bind-done, bind-fail}
use breez_sdk_liquid.Send.Handler.{
  Services, LiquidTx, CreateSubmarineResponse, broadcast_tx, try_lockup, undo_lockup,
}

-- Every row with the id has a lockup transaction.
abbrev pub IsLocked : String → List SendSwap → Type 0
IsLocked id rows = All (λ s. unlocked id s ≡ false) rows

-- The one row with the id is without a lockup transaction.
abbrev pub IsFree : String → List SendSwap → Type 0
IsFree id rows =
    All (λ (s : SendSwap). has_id id s ≡ true → is_none s.lockup_tx_id ≡ true) rows
    × (length (filter (unlocked id) rows) ≡ 1)

-- In a valid table the rows with the id are locked, or there is one such row and it is free.
pub IsValid-lockable :
    (table : Table) (id : String) (rows : List SendSwap)
    → IsValid (schema table) rows
    → IsLocked id rows ⊎ IsFree id rows
IsValid-lockable table id rows v =
    IsValid-open (schema table) id (λ (s : SendSwap). is_none s.lockup_tx_id) rows v

module _ (services : Services) where
  pub set_lockup-locked :
      (id tx_id : String) (db : Db)
      → IsLocked id db.swaps
      → set_send_swap_lockup_tx_id services.table id tx_id db ≡ (err payment_in_progress, db)
  unfolding set_send_swap_lockup_tx_id
  set_lockup-locked id tx_id db h =
      rw
        (
          filter-none (unlocked id) db.swaps h,
          update-none (schema services.table) (unlocked id)
              (λ s. record s { lockup_tx_id = some tx_id }) db.swaps h,
        )
        refl

  -- Once the swap's row has a lockup transaction, `try_lockup` fails, even on an older copy of the
  -- swap, and neither broadcasts nor writes anything.
  pub try_lockup-once :
      (swap : SendSwap) (response : CreateSubmarineResponse) (db : Db)
      → IsLocked swap.id db.swaps
      → (failure : PaymentError) × (try_lockup services swap response db ≡ (err failure, db))
  unfolding try_lockup
  try_lockup-once swap response db h = elim (Bool-cases (is_some swap.lockup_tx_id)) [
    | inl locked ↦ (payment_in_progress, rw (locked, try_lockup) refl)
    | inr stale ↦
        elim (Result-cases
          (services.build_tx_or_drain_tx response.address response.expected_amount)) [
            | inl (failure, e) ↦ (failure, rw (stale, try_lockup) (bind-fail _ _ db (rw e refl)))
            | inr (tx, e) ↦ (
              payment_in_progress,
              rw (stale, try_lockup)
                  (bind-done _ _ db {value = tx} {db' = db} (rw e refl)
                    ∙ bind-fail _ _ db (set_lockup-locked swap.id tx.txid db h)),
            )
          ]
  ]
