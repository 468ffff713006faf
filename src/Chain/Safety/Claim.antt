-- ===== src/Chain/Safety/Claim.antt =====
-- A claim broadcasts exactly when it is recorded, and only for a row that was not claimed before.
use breez_sdk_liquid.Base.{
  String, true, Option, some, none, ◌∷◌, ◌≡◌, refl, sym, ◌∙◌, ◌⊎◌, inl, inr, Bool-cases,
  Option-cases, is_none, any,
}
use mathlib.Core.Path.{subst}
use breez_sdk_liquid.Base.Text.{str_eq}
use breez_sdk_liquid.Base.Result.{ok, err, is_ok, Result-cases}
use breez_sdk_liquid.Base.Exec.{
  lift, done, fail, attempt, change, when, gets, bind-done, bind-fail, ◌>>=◌,
}
use breez_sdk_liquid.Base.Exec.Reads.{Reads, lift-Reads, guard-Reads, read_then}
use breez_sdk_liquid.Model.{ChainSwap, Direction, incoming, outgoing}
use breez_sdk_liquid.Model.Errors.{PaymentError, already_claimed, generic}
use breez_sdk_liquid.Persist.{fetch_by_id}
use breez_sdk_liquid.Persist.Rows.{Rows-refl, IsValid}
use breez_sdk_liquid.Persist.Once.{
  filter-none, update-none, IsTaken, IsFree, IsValid-open, open-any,
}
use breez_sdk_liquid.Send.Handler.{SdkTransaction, LiquidTx, liquid, bitcoin}
use breez_sdk_liquid.Chain.Store.{
  Db, Action, schema, unclaimed, set_chain_swap_claim, unset_chain_swap_claim_tx_id,
}
use breez_sdk_liquid.Chain.Handler.{
  Services, fetch_chain_swap_by_id, claim_address_of, broadcast_bitcoin, broadcast_by_swapper,
  broadcast_claim, is_txn_mempool_conflict_error, claimed, undo_claim, after_broadcast, send_claim,
  claim_inner, claim, txid, sent, notify, insert_payment, begin_claim, end_claim,
}
use breez_sdk_liquid.Persist.Claims as Any
use breez_sdk_liquid.Chain.Safety.Claimed.{
  claim_of, is_unclaimed, ClaimOutcome, marking, locked, undone,
}

module _ (services : Services) where
  not_claimed :
      (id : String) (db : Db) (failure : PaymentError)
      → ClaimOutcome services.table id db (err failure, db)
  not_claimed id db failure = inl (refl, refl, Rows-refl (λ s. (refl, refl)) db.swaps)

  fetch-Reads : (id : String) (db : Db) → Reads (fetch_chain_swap_by_id services id) db
  unfolding fetch_chain_swap_by_id
  fetch-Reads id db = elim (Option-cases (fetch_by_id (schema services.table) id db.swaps)) [
    | inl missing ↦ inl (generic, rw missing refl)
    | inr (swap, found) ↦ inr (swap, rw found refl)
  ]

  address-Reads :
      (swap : ChainSwap) (direction : Direction) (address : Option String) (db : Db)
      → Reads (claim_address_of services swap direction address) db
  unfolding claim_address_of ◌>>=◌
  address-Reads swap incoming none db = elim (Result-cases services.next_unused_address) [
    | inl (failure, e) ↦ inl (failure, rw e refl)
    | inr (address, e) ↦ inr (some address, rw e refl)
  ]
  address-Reads swap incoming (some address) db = inr (swap.claim_address, refl)
  address-Reads swap outgoing address db = inr (swap.claim_address, refl)

  -- A broadcast fails and changes nothing, or it is recorded.
  abbrev Broadcasts : SdkTransaction → Action String → Db → Type 0
  Broadcasts tx action db =
      ((failure : PaymentError) × (action db ≡ (err failure, db)))
      ⊎ ((returned : String) × (action db
            ≡ (ok returned, record db { broadcasts = txid services tx ∷ db.broadcasts })))

  by_swapper-Broadcasts :
      (tx : LiquidTx) (db : Db) → Broadcasts (liquid tx) (broadcast_by_swapper services tx) db
  unfolding broadcast_by_swapper sent fail
  by_swapper-Broadcasts tx db = elim (Result-cases (services.swapper_broadcast tx)) [
    | inl (failure, e) ↦ inl (failure, rw (e, broadcast_by_swapper) refl)
    | inr (returned, e) ↦ inr (returned, rw (e, broadcast_by_swapper) refl)
  ]

  claim-Broadcasts :
      (tx : SdkTransaction) (db : Db) → Broadcasts tx (broadcast_claim services tx) db
  unfolding broadcast_claim broadcast_bitcoin sent fail
  claim-Broadcasts (bitcoin tx) db = elim (Result-cases (services.bitcoin_broadcast tx)) [
    | inl (failure, e) ↦ inl (generic, rw (e, broadcast_bitcoin) refl)
    | inr (returned, e) ↦ inr (returned, rw (e, broadcast_bitcoin) refl)
  ]
  claim-Broadcasts (liquid tx) db = elim (Result-cases (services.liquid_broadcast tx)) [
    | inr (returned, e) ↦ inr (returned, rw (e, broadcast_claim) refl)
    | inl (text, e) ↦ elim (Bool-cases (is_txn_mempool_conflict_error text)) [
      | inl conflict ↦ inl (already_claimed, rw (e, broadcast_claim) (rw conflict refl))
      | inr other ↦ rw (e, broadcast_claim) (rw other (by_swapper-Broadcasts tx db))
    ]
  ]

  set_claim-taken :
      (id : String) (address : Option String) (tx_id : String) (db : Db)
      → IsTaken (schema services.table) id is_unclaimed db.swaps
      → set_chain_swap_claim services.table id address tx_id db ≡ (err already_claimed, db)
  unfolding set_chain_swap_claim
  set_claim-taken id address tx_id db h =
      rw
        (
          filter-none (unclaimed services.table id) db.swaps h,
          update-none (schema services.table) (unclaimed services.table id) _ db.swaps h,
        )
        refl

  abbrev after_lock : String → Option String → String → Db → Db
  after_lock id address tx_id db = record db {
    swaps = locked services.table id address tx_id db.swaps;
  }

  set_claim-free :
      (id : String) (address : Option String) (tx_id : String) (db : Db)
      → IsFree (schema services.table) id is_unclaimed db.swaps
      → set_chain_swap_claim services.table id address tx_id db
        ≡ (ok tt, after_lock id address tx_id db)
  unfolding set_chain_swap_claim
  set_claim-free id address tx_id db (_, one) = rw one refl

  -- What a successful claim does besides.
  claimed-Kept :
      (swap : ChainSwap) (tx_id : String) (direction : Direction) (db : Db)
      → (is_ok (claimed services swap tx_id direction db).0 ≡ true)
        × ((claimed services swap tx_id direction db).1.broadcasts ≡ db.broadcasts)
        × ((claimed services swap tx_id direction db).1.swaps ≡ db.swaps)
  unfolding claimed insert_payment notify ◌>>=◌
  claimed-Kept swap tx_id incoming db = (refl, refl, refl)
  claimed-Kept swap tx_id outgoing db = elim (Option-cases (swap.user_lockup_tx_id)) [
    | inl e ↦ rw (e, claimed) (refl, refl, refl)
    | inr (lockup, e) ↦ rw (e, claimed) (refl, refl, refl)
  ]

  undo_claim-runs :
      (id tx_id : String) (failure : PaymentError) (db : Db) (address : Option String)
      → undo_claim services id tx_id failure db
        ≡ (err failure, record db { swaps = undone services.table id address tx_id db.swaps })
  unfolding undo_claim unset_chain_swap_claim_tx_id ◌>>=◌
  undo_claim-runs id tx_id failure db address = refl

  send_claim-Outcome :
      (id : String) (swap : ChainSwap) (address : Option String) (tx : SdkTransaction) (db : Db)
      → IsFree (schema services.table) id is_unclaimed db.swaps
      → ClaimOutcome services.table id db
          (send_claim services id swap tx (after_lock id address (txid services tx) db))
  unfolding send_claim attempt after_broadcast
  send_claim-Outcome id swap address tx db (free, one) =
      let db1 = after_lock id address (txid services tx) db in
      elim (claim-Broadcasts tx db1) [
        | inl (failure, e) ↦
            subst (ClaimOutcome services.table id db)
              (sym (
                bind-done _ _ db1 {value = err failure} {s' = db1} (rw e refl)
                ∙ undo_claim-runs id (txid services tx) failure db1 address))
              (inl (
                refl,
                refl,
                Any.undone-Rows (schema services.table) claim_of id (txid services tx)
                    (marking services.table address (txid services tx)) db.swaps free,
              ))
        | inr (returned, e) ↦
            let db2 : Db = record db1 { broadcasts = txid services tx ∷ db.broadcasts } in
            let (good, sent_one, kept) = claimed-Kept swap returned swap.direction db2 in
            subst (ClaimOutcome services.table id db)
              (sym (bind-done _ _ db1 {value = ok returned} {s' = db2} (rw e refl)))
              (inr (
                txid services tx,
                good,
                sent_one,
                open-any (schema services.table) id is_unclaimed db.swaps one,
                rw kept (
                    Any.locked-Rows (schema services.table) claim_of id (txid services tx)
                      (marking services.table address (txid services tx)) db.swaps free),
              ))
      ]

  claim_inner-Outcome :
      (id : String) (db : Db)
      → IsValid (schema services.table) db.swaps
      → ClaimOutcome services.table id db (claim_inner services id db)
  unfolding claim_inner
  claim_inner-Outcome id db v =
      let P = ClaimOutcome services.table id db in
      let stop = not_claimed id db in
      read_then P _ _ db (fetch-Reads id db) stop (λ swap found.
        read_then P _ _ db (guard-Reads (is_none swap.claim_tx_id) already_claimed db) stop (λ u g.
          read_then P _ _ db (address-Reads swap swap.direction swap.claim_address db) stop
            (λ address got.
              read_then P _ _ db (lift-Reads (services.create_claim_tx swap address) db) stop
                (λ tx made. elim (IsValid-open (schema services.table) id is_unclaimed db.swaps v) [
                  | inl taken ↦
                      subst P
                        (sym (
                          bind-fail _ _ db
                            (set_claim-taken id address (txid services tx) db taken)))
                        (stop already_claimed)
                  | inr free ↦
                      subst P
                        (sym
                          (bind-done _ _ db (set_claim-free id address (txid services tx) db free)))
                        (send_claim-Outcome id swap address tx db free)
                ]))))

  -- A claim of a chain swap ends in one of three ways, in a table whose ids are unique. Another claim
  -- of the swap is in progress, and nothing happens. Or the claim fails, nothing was broadcast, and
  -- every row has the claim transaction that it had before. Or it succeeds: one transaction was
  -- broadcast, the rows with the id had no claim transaction and have that one now, and the other
  -- rows have the one that they had.
  pub chain_claim-Outcome :
      (id : String) (db : Db)
      → IsValid (schema services.table) db.swaps
      → ((any (λ s. str_eq s id) db.claiming_swaps ≡ true) × (claim services id db ≡ (ok tt, db)))
        ⊎ ClaimOutcome services.table id db (claim services id db)
  unfolding claim gets when done begin_claim end_claim change attempt lift ◌>>=◌
  chain_claim-Outcome id db v = elim (Bool-cases (any (λ s. str_eq s id) db.claiming_swaps)) [
    | inl busy ↦ inl (busy, rw (busy, claim) refl)
    | inr idle ↦
        let db1 : Db = record db { claiming_swaps = id ∷ db.claiming_swaps } in
        rw (idle, claim) (inr (claim_inner-Outcome id db1 v))
  ]
