-- ===== src/Receive/Safety/Claim.antt =====
-- A claim broadcasts exactly when it is recorded, and only for a row that was not claimed before.
use breez_sdk_liquid.Base.{
  String, true, Option, some, none, ◌∷◌, ◌≡◌, refl, sym, ◌∙◌, ◌⊎◌, inl, inr, Bool-cases,
  Option-cases, is_none, any,
}
use mathlib.Core.Path.{subst}
use breez_sdk_liquid.Base.Text.{str_eq}
use breez_sdk_liquid.Base.Result.{ok, err, Result-cases}
use breez_sdk_liquid.Base.Exec.{
  lift, done, fail, attempt, change, when, gets, bind-done, bind-fail, ◌>>=◌,
}
use breez_sdk_liquid.Base.Exec.Reads.{Reads, lift-Reads, guard-Reads, read_then}
use breez_sdk_liquid.Model.{ReceiveSwap}
use breez_sdk_liquid.Model.Errors.{PaymentError, already_claimed, generic}
use breez_sdk_liquid.Persist.{fetch_by_id, update_where}
use breez_sdk_liquid.Persist.Rows.{Rows, Rows-refl, IsValid, IsValid-Rows, update_where-Rows}
use breez_sdk_liquid.Persist.Sound.{All-rows}
use breez_sdk_liquid.Persist.Once.{
  filter-none, update-none, IsTaken, IsFree, IsValid-open, open-any,
}
use breez_sdk_liquid.Send.Handler.{LiquidTx}
use breez_sdk_liquid.Chain.Handler.{is_txn_mempool_conflict_error}
use breez_sdk_liquid.Receive.Store.{
  Db, Action, schema, id_is, unclaimed, set_receive_swap_claim_address,
  set_receive_swap_claim_tx_id, unset_receive_swap_claim_tx_id,
}
use breez_sdk_liquid.Receive.Handler.{
  Services, fetch_receive_swap_by_id, claim_address_of, only_liquid, broadcast_by_swapper,
  broadcast_claim, after_broadcast, send_claim, make_claim, claim_inner, claim, sent, notify,
  insert_payment, begin_claim, end_claim,
}
use breez_sdk_liquid.Persist.Claims as Any
use breez_sdk_liquid.Receive.Safety.Claimed.{
  rows_of, broadcasts_of, claim_of, is_unclaimed, SameClaim, ClaimOutcome, Alike, marking, locked,
  undone,
}

module _ (services : Services) where
  not_claimed :
      (id : String) (db : Db) (failure : PaymentError)
      → ClaimOutcome services.table id db (err failure, db)
  not_claimed id db failure = inl (refl, refl, Rows-refl (λ s. (refl, refl)) db.swaps)

  pub fetch-Reads : (id : String) (db : Db) → Reads (fetch_receive_swap_by_id services id) db
  unfolding fetch_receive_swap_by_id
  fetch-Reads id db = elim (Option-cases (fetch_by_id (schema services.table) id db.swaps)) [
    | inl missing ↦ inl (generic, rw missing refl)
    | inr (swap, found) ↦ inr (swap, rw found refl)
  ]

  -- A broadcast fails and changes nothing, or it is recorded.
  abbrev Broadcasts : LiquidTx → Action String → Db → Type 0
  Broadcasts tx action db =
      ((failure : PaymentError) × (action db ≡ (err failure, db)))
      ⊎ ((returned : String) × (action db
            ≡ (ok returned, record db { broadcasts = tx.txid ∷ db.broadcasts })))

  by_swapper-Broadcasts :
      (tx : LiquidTx) (db : Db) → Broadcasts tx (broadcast_by_swapper services tx) db
  unfolding broadcast_by_swapper sent fail
  by_swapper-Broadcasts tx db = elim (Result-cases (services.swapper_broadcast tx)) [
    | inl (failure, e) ↦ inl (failure, rw (e, broadcast_by_swapper) refl)
    | inr (returned, e) ↦ inr (returned, rw (e, broadcast_by_swapper) refl)
  ]

  claim-Broadcasts : (tx : LiquidTx) (db : Db) → Broadcasts tx (broadcast_claim services tx) db
  unfolding broadcast_claim sent fail
  claim-Broadcasts tx db = elim (Result-cases (services.liquid_broadcast tx)) [
    | inr (returned, e) ↦ inr (returned, rw (e, broadcast_claim) refl)
    | inl (text, e) ↦ elim (Bool-cases (is_txn_mempool_conflict_error text)) [
      | inl conflict ↦ inl (already_claimed, rw (e, broadcast_claim) (rw conflict refl))
      | inr other ↦ rw (e, broadcast_claim) (rw other (by_swapper-Broadcasts tx db))
    ]
  ]

  set_claim-taken :
      (id tx_id : String) (db : Db)
      → IsTaken (schema services.table) id is_unclaimed db.swaps
      → set_receive_swap_claim_tx_id services.table id tx_id db ≡ (err already_claimed, db)
  unfolding set_receive_swap_claim_tx_id
  set_claim-taken id tx_id db h =
      rw
        (
          filter-none (unclaimed services.table id) db.swaps h,
          update-none (schema services.table) (unclaimed services.table id) _ db.swaps h,
        )
        refl

  abbrev after_lock : String → String → Db → Db
  after_lock id tx_id db = record db { swaps = locked services.table id tx_id db.swaps }

  set_claim-free :
      (id tx_id : String) (db : Db)
      → IsFree (schema services.table) id is_unclaimed db.swaps
      → set_receive_swap_claim_tx_id services.table id tx_id db ≡ (ok tt, after_lock id tx_id db)
  unfolding set_receive_swap_claim_tx_id
  set_claim-free id tx_id db (_, one) = rw one refl

  undo-runs :
      (id : String) (swap : ReceiveSwap) (tx : LiquidTx) (failure : PaymentError) (db : Db)
      → after_broadcast services id swap tx (err failure) db
        ≡ (err failure, record db { swaps = undone services.table id tx.txid db.swaps })
  unfolding after_broadcast unset_receive_swap_claim_tx_id ◌>>=◌
  undo-runs id swap tx failure db = refl

  send_claim-Outcome :
      (id : String) (swap : ReceiveSwap) (tx : LiquidTx) (db : Db)
      → IsFree (schema services.table) id is_unclaimed db.swaps
      → ClaimOutcome services.table id db
          (send_claim services id swap tx (after_lock id tx.txid db))
  unfolding send_claim attempt after_broadcast insert_payment notify ◌>>=◌
  send_claim-Outcome id swap tx db (free, one) =
      let db1 = after_lock id tx.txid db in
      let attempted = attempt (broadcast_claim services tx) in
      let next = after_broadcast services id swap tx in
      elim (claim-Broadcasts tx db1) [
        | inl (failure, e) ↦
            subst (ClaimOutcome services.table id db)
              (sym (
                bind-done attempted next db1 {value = err failure} {s' = db1} (rw e refl)
                ∙ undo-runs id swap tx failure db1))
              (inl (
                refl,
                refl,
                Any.undone-Rows (schema services.table) claim_of id tx.txid
                    (marking services.table tx.txid) db.swaps free,
              ))
        | inr (returned, e) ↦
            let db2 : Db = record db1 { broadcasts = tx.txid ∷ db.broadcasts } in
            subst (ClaimOutcome services.table id db)
              (sym (bind-done attempted next db1 {value = ok returned} {s' = db2} (rw e refl)))
              (inr (
                tx.txid,
                refl,
                refl,
                open-any (schema services.table) id is_unclaimed db.swaps one,
                Any.locked-Rows (schema services.table) claim_of id tx.txid
                    (marking services.table tx.txid) db.swaps free,
              ))
      ]

  make_claim-Outcome :
      (id : String) (swap : ReceiveSwap) (address : String) (db : Db)
      → IsValid (schema services.table) db.swaps
      → ClaimOutcome services.table id db (make_claim services id swap address db)
  unfolding make_claim
  make_claim-Outcome id swap address db v =
      let P = ClaimOutcome services.table id db in
      let stop = not_claimed id db in
      read_then P _ _ db (lift-Reads (services.create_claim_tx swap (some address)) db) stop
        (λ any_tx made.
          read_then P _ _ db (lift-Reads (only_liquid services any_tx) db) stop (λ tx only.
            elim (IsValid-open (schema services.table) id is_unclaimed db.swaps v) [
              | inl taken ↦
                  subst P (sym (bind-fail _ _ db (set_claim-taken id tx.txid db taken)))
                    (stop already_claimed)
              | inr free ↦
                  subst P (sym (bind-done _ _ db (set_claim-free id tx.txid db free)))
                    (send_claim-Outcome id swap tx db free)
            ]))

  abbrev addressed : String → String → Db → Db
  addressed id address db = record db {
    swaps =
        update_where (schema services.table) (id_is services.table id)
          (λ s. record s { claim_address = some address }) db.swaps;
  }

  addressed-Rows :
      (id address : String) (db : Db)
      → Rows (SameClaim services.table) db.swaps (addressed id address db).swaps
  addressed-Rows id address db =
      update_where-Rows (schema services.table) (SameClaim services.table) {P = λ s. Unit}
        (id_is services.table id) (λ s. record s { claim_address = some address })
        (λ s. (refl, refl)) (λ s p e. (refl, refl)) db.swaps (All-rows db.swaps)

  -- The address is not found, and nothing changes, or it is found, or written.
  address-cases :
      (id : String) (known : Option String) (db : Db)
      → ((failure : PaymentError) × (claim_address_of services id known db ≡ (err failure, db)))
        ⊎ ((address : String) × (db1 : Db) × (claim_address_of services id known db
              ≡ (ok address, db1))
            × Alike services.table db db1)
  unfolding claim_address_of set_receive_swap_claim_address ◌>>=◌
  address-cases id (some address) db =
      inr (address, db, refl, (refl, Rows-refl (λ s. (refl, refl)) db.swaps))
  address-cases id none db = elim (Result-cases services.next_unused_address) [
    | inl (failure, e) ↦ inl (failure, rw e refl)
    | inr (address, e) ↦
        inr (address, addressed id address db, rw e refl, (refl, addressed-Rows id address db))
  ]

  address-Outcome :
      (id : String) (swap : ReceiveSwap) (known : Option String) (db : Db)
      → IsValid (schema services.table) db.swaps
      → ClaimOutcome services.table id db
          ((claim_address_of services swap.id known >>= make_claim services id swap) db)
  address-Outcome id swap known db v =
      let P = ClaimOutcome services.table id db in
      elim (address-cases swap.id known db) [
        | inl (failure, e) ↦ subst P (sym (bind-fail _ _ db e)) (not_claimed id db failure)
        | inr (address, db1, e, (b, rs)) ↦ subst P (sym (bind-done _ _ db e)) (
            Any.ClaimOutcome-after (schema services.table) claim_of rows_of broadcasts_of id db db1
              (make_claim services id swap address db1) (b, rs)
              (make_claim-Outcome id swap address db1
                (IsValid-Rows (schema services.table) (λ s t (i, c). i) rs v)))
      ]

  claim_inner-Outcome :
      (id : String) (db : Db)
      → IsValid (schema services.table) db.swaps
      → ClaimOutcome services.table id db (claim_inner services id db)
  unfolding claim_inner
  claim_inner-Outcome id db v =
      let P = ClaimOutcome services.table id db in
      let stop = not_claimed id db in
      read_then P _ _ db (fetch-Reads id db) stop (λ swap found.
        read_then P _ _ db (guard-Reads (is_none swap.claim_tx_id) already_claimed db) stop
          (λ u g. address-Outcome id swap swap.claim_address db v))

  -- A claim of a receive swap ends in one of three ways, in a table whose ids are unique. Another
  -- claim of the swap is in progress, and nothing happens. Or the claim fails, nothing was broadcast,
  -- and every row has the claim transaction that it had before. Or it succeeds: one transaction was
  -- broadcast, the rows with the id had no claim transaction and have that one now, and the other
  -- rows have the one that they had.
  pub receive_claim-Outcome :
      (id : String) (db : Db)
      → IsValid (schema services.table) db.swaps
      → ((any (λ s. str_eq s id) db.claiming_swaps ≡ true) × (claim services id db ≡ (ok tt, db)))
        ⊎ ClaimOutcome services.table id db (claim services id db)
  unfolding claim gets when done begin_claim end_claim change attempt lift ◌>>=◌
  receive_claim-Outcome id db v = elim (Bool-cases (any (λ s. str_eq s id) db.claiming_swaps)) [
    | inl busy ↦ inl (busy, rw (busy, claim) refl)
    | inr idle ↦
        let db1 : Db = record db { claiming_swaps = id ∷ db.claiming_swaps } in
        rw (idle, claim) (inr (claim_inner-Outcome id db1 v))
  ]
