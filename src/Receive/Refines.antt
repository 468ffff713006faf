-- ===== src/Receive/Refines.antt =====
-- The handler of receive swaps implements the ledger: whatever it does is a sequence of claims.
use breez_sdk_liquid.Base.{
  ℕ, String, Option, some, none, List, [], ◌∷◌, ◌≡◌, refl, sym, or_else, inl, inr, map, All,
}
use breez_sdk_liquid.Base.Result.{Result, ok, err, Result-cases}
use breez_sdk_liquid.Base.Exec.{change}
use breez_sdk_liquid.Base.Exec.Follows as Any
use breez_sdk_liquid.Model.{ReceiveSwap, PaymentState}
use breez_sdk_liquid.Model.Errors.{PaymentError, AnyError}
use breez_sdk_liquid.Persist.{Table}
use breez_sdk_liquid.Persist.Rows.{Rows-refl, NoClash, IsValid, IsValid-Rows, update_where-Rows}
use breez_sdk_liquid.Persist.Sound.{All-rows}
use breez_sdk_liquid.Chain.Handler.Check.{TransactionInfo}
use breez_sdk_liquid.Chain.Handler.Status.{SwapStatus}
use breez_sdk_liquid.Receive.Store.{
  Db, Action, schema, id_is, set_update, delete_reserved_address, try_handle_receive_swap_update,
}
use breez_sdk_liquid.Receive.Handler.{
  Services, LockupTx, fetch_receive_swap_by_id, notify, update_swap_info, claim,
}
use breez_sdk_liquid.Receive.Handler.Status.{
  RevSwapStates, broadcast_lockup, or_seen, after_amount, try_claim, on_expired, on_mempool,
  claim_confirmed, on_confirmed, with_transaction, on_state, on_new_status,
}
use breez_sdk_liquid.Receive.Handler.Blocks.{
  claim_confirmed_lockup, claim_all, claim_confirmed_lockups, on_liquid_block,
}
use breez_sdk_liquid.Receive.Safety.Claimed.{rows_of, broadcasts_of, claim_of, SameClaim}
use breez_sdk_liquid.Receive.Safety.Claim.{receive_claim-Outcome}
use breez_sdk_liquid.Ledger.{Ledger, ◌⇒*◌, as_before, ⇒*-trans}
use breez_sdk_liquid.Ledger.View as Book

-- The claims of the swaps, and the claims that were broadcast.
abbrev pub view : Db → Ledger
view db = record {
  claims = map (λ (s : ReceiveSwap). (s.id, s.claim_tx_id)) db.swaps;
  broadcasts = db.broadcasts;
}

abbrev Ledgers : Table → Db → Db → Type 0
Ledgers table = Book.Ledgers (schema table) claim_of rows_of broadcasts_of

-- An action that moves the ledger by claims only.
abbrev Refines : Table → {A : Type 0} → Action A → Type 0
Refines table action = Any.Follows (Book.order (schema table) claim_of rows_of broadcasts_of) action

or_else-none : {A : Type 0} (o : Option A) → o ≡ or_else o none
or_else-none none = refl
or_else-none (some x) = refl

module _ (table : Table) where
  aside-Refines :
      {A : Type 0} (action : Action A)
      → ((db : Db) → db.swaps ≡ (action db).1.swaps)
      → ((db : Db) → (action db).1.broadcasts ≡ db.broadcasts)
      → Refines table action
  aside-Refines action rows same = record {
    at = λ db v.
        Book.quiet-Ledgers (schema table) claim_of rows_of broadcasts_of db (action db).1
          (rw (← rows db) (Rows-refl (λ s. (refl, refl)) db.swaps)) (same db);
  }

  update-Refines :
      (id : String) (to : PaymentState) (lockup mrh : Option String) (amount : Option ℕ)
      → Refines table (try_handle_receive_swap_update table id to none lockup mrh amount)
  unfolding try_handle_receive_swap_update change
  update-Refines id to lockup mrh amount = record {
    at = λ db v.
        Book.quiet-Ledgers (schema table) claim_of rows_of broadcasts_of db
          (try_handle_receive_swap_update table id to none lockup mrh amount db).1
          (update_where-Rows (schema table) (SameClaim table) {P = λ s. Unit} (id_is table id)
            (set_update to none lockup mrh amount) (λ s. (refl, refl))
            (λ s p e. (refl, or_else-none s.claim_tx_id)) db.swaps (All-rows db.swaps))
          refl;
  }

module _ (services : Services) where
  fetch-Refines : (id : String) → Refines services.table (fetch_receive_swap_by_id services id)
  unfolding fetch_receive_swap_by_id
  fetch-Refines id = aside-Refines services.table _ (λ db. refl) (λ db. refl)

  notify-Refines : (id : String) → Refines services.table (notify id)
  unfolding notify change
  notify-Refines id = aside-Refines services.table (notify id) (λ db. refl) (λ db. refl)

  delete-Refines : (address : String) → Refines services.table (delete_reserved_address address)
  unfolding delete_reserved_address change
  delete-Refines address =
      aside-Refines services.table (delete_reserved_address address) (λ db. refl) (λ db. refl)

  broadcast_lockup-Refines : (tx : LockupTx) → Refines services.table (broadcast_lockup services tx)
  unfolding broadcast_lockup
  broadcast_lockup-Refines tx = elim (Result-cases (services.lockup_broadcast tx)) [
    | inl (text, e) ↦
        aside-Refines services.table _ (λ db. rw (e, broadcast_lockup) refl)
          (λ db. rw (e, broadcast_lockup) refl)
    | inr (tx_id, e) ↦
        aside-Refines services.table _ (λ db. rw (e, broadcast_lockup) refl)
          (λ db. rw (e, broadcast_lockup) refl)
  ]

  update_swap_info-Refines :
      (id : String) (to : PaymentState) (lockup mrh : Option String) (amount : Option ℕ)
      → Refines services.table (update_swap_info services id to none lockup mrh amount)
  unfolding update_swap_info
  update_swap_info-Refines id to lockup mrh amount =
      search (Any.follows_rules, fetch-Refines, notify-Refines, delete-Refines, update-Refines)
        depth 20

  claim-Refines : (id : String) → Refines services.table (claim services id)
  claim-Refines id = record {
    at = λ db v. elim (receive_claim-Outcome services id db v) [
      | inl (busy, e) ↦
          rw e ((Book.order (schema services.table) claim_of rows_of broadcasts_of).same db)
      | inr (inl (bad, quiet, rows)) ↦
          Book.quiet-Ledgers (schema services.table) claim_of rows_of broadcasts_of db _ rows quiet
      | inr (inr (tx, good, one, there, rows)) ↦
          Book.claimed-Ledgers (schema services.table) claim_of rows_of broadcasts_of id tx db _
            there rows one
    ];
  }

  ruleset ledger_rules = (
    Any.follows_rules, update_swap_info-Refines, claim-Refines, broadcast_lockup-Refines,
    fetch-Refines,
  )

  or_seen-Refines :
      (swap : ReceiveSwap) (tx_id tx_hex : String) (result : Result PaymentError String)
      → Refines services.table (or_seen services swap tx_id tx_hex result)
  unfolding or_seen
  or_seen-Refines swap tx_id tx_hex (ok _) = search ledger_rules
  or_seen-Refines swap tx_id tx_hex (err failure) = search ledger_rules

  after_amount-Refines :
      (id : String) (result : Result AnyError (Unit {0}))
      → Refines services.table (after_amount services id result)
  unfolding after_amount
  after_amount-Refines id (ok _) = search ledger_rules
  after_amount-Refines id (err failure) = search ledger_rules

  try_claim-Refines : (id : String) → Refines services.table (try_claim services id)
  unfolding try_claim
  try_claim-Refines id = search ledger_rules

  on_expired-Refines :
      (id : String) (mrh : Option String) → Refines services.table (on_expired services id mrh)
  unfolding on_expired
  on_expired-Refines id none = search ledger_rules
  on_expired-Refines id (some mrh) = search ledger_rules

  ruleset status_rules =
      (ledger_rules, or_seen-Refines, after_amount-Refines, try_claim-Refines, on_expired-Refines)

  on_mempool-Refines :
      (id : String) (swap : ReceiveSwap) (t : TransactionInfo)
      → Refines services.table (on_mempool services id swap t)
  unfolding on_mempool
  on_mempool-Refines id swap t = search status_rules depth 30

  claim_confirmed-Refines :
      (id : String) (swap : ReceiveSwap) (claim_tx_id : Option String)
      → Refines services.table (claim_confirmed services id swap claim_tx_id)
  unfolding claim_confirmed
  claim_confirmed-Refines id swap none = search status_rules
  claim_confirmed-Refines id swap (some claim_tx_id) = search status_rules

  on_confirmed-Refines :
      (id : String) (swap : ReceiveSwap) (t : TransactionInfo)
      → Refines services.table (on_confirmed services id swap t)
  unfolding on_confirmed
  on_confirmed-Refines id swap t = search (status_rules, claim_confirmed-Refines) depth 30

  with_transaction-Refines :
      (t : Option TransactionInfo) (next : TransactionInfo → Action (Unit {0}))
      → ((t : TransactionInfo) → Refines services.table (next t))
      → Refines services.table (with_transaction services t next)
  unfolding with_transaction
  with_transaction-Refines none next h = search ledger_rules
  with_transaction-Refines (some t) next h = h t

  on_state-Refines :
      (u : SwapStatus) (swap : ReceiveSwap) (state : RevSwapStates)
      → Refines services.table (on_state services u swap state)
  unfolding on_state
  on_state-Refines u swap RevSwapStates.swap_expired = on_expired-Refines u.id swap.mrh_tx_id
  on_state-Refines u swap RevSwapStates.invoice_expired = on_expired-Refines u.id swap.mrh_tx_id
  on_state-Refines u swap RevSwapStates.transaction_failed = on_expired-Refines u.id swap.mrh_tx_id
  on_state-Refines u swap RevSwapStates.transaction_refunded =
      on_expired-Refines u.id swap.mrh_tx_id
  on_state-Refines u swap RevSwapStates.transaction_mempool =
      with_transaction-Refines u.transaction _ (on_mempool-Refines u.id swap)
  on_state-Refines u swap RevSwapStates.transaction_confirmed =
      with_transaction-Refines u.transaction _ (on_confirmed-Refines u.id swap)
  on_state-Refines u swap (RevSwapStates.unhandled status) = search ledger_rules

  on_new_status-Refines :
      (parse : String → Option RevSwapStates) (u : SwapStatus)
      → Refines services.table (on_new_status services parse u)
  unfolding on_new_status
  on_new_status-Refines parse u = search (ledger_rules, on_state-Refines) depth 20

  confirmed_lockup-Refines :
      (swap : ReceiveSwap) (tx_id : Option String)
      → Refines services.table (claim_confirmed_lockup services swap tx_id)
  unfolding claim_confirmed_lockup
  confirmed_lockup-Refines swap none = search ledger_rules
  confirmed_lockup-Refines swap (some tx_id) = search status_rules depth 20

  claim_all-Refines : (swaps : List ReceiveSwap) → Refines services.table (claim_all services swaps)
  unfolding claim_all
  claim_all-Refines [] = search ledger_rules
  claim_all-Refines (swap ∷ swaps) =
      Any.bind-Follows (Book.order (schema services.table) claim_of rows_of broadcasts_of) _ _
        (search (ledger_rules, confirmed_lockup-Refines)) (λ result. claim_all-Refines swaps)

  on_liquid_block-Refines : (height : ℕ) → Refines services.table (on_liquid_block services height)
  unfolding on_liquid_block claim_confirmed_lockups
  on_liquid_block-Refines height = search (ledger_rules, claim_all-Refines) depth 20

-- A table whose ids are unique has that property whatever else surrounds it than the hashes.
hash-NoClash :
    (a b : Table) (s : ReceiveSwap) (ss : List ReceiveSwap)
    → a.id_hash ≡ b.id_hash
    → All (NoClash (schema a) s) ss
    → All (NoClash (schema b) s) ss
hash-NoClash a b s [] e h = tt
hash-NoClash a b s (t ∷ ss) e ((p, q), h) = ((rw (← e) p, rw (← e) q), hash-NoClash a b s ss e h)

hash-IsValid :
    (a b : Table) (ss : List ReceiveSwap)
    → a.id_hash ≡ b.id_hash
    → IsValid (schema a) ss
    → IsValid (schema b) ss
hash-IsValid a b [] e v = tt
hash-IsValid a b (s ∷ ss) e (n, v) = (hash-NoClash a b s ss e n, hash-IsValid a b ss e v)

-- What the handler reacts to, in the order in which it happens.
pub data Event : Type 0 where
  status_update : SwapStatus → Event
  liquid_block : ℕ → Event

module _ (parse : String → Option RevSwapStates) where
  unfoldable pub handle : Services → Event → Db → Db
  handle services (Event.status_update u) db = (on_new_status services parse u db).1
  handle services (Event.liquid_block height) db = (on_liquid_block services height db).1

  -- Each event comes with what the swapper, the wallet, the chain services and the clock say then.
  unfoldable pub handle_all : List (Services × Event) → Db → Db
  handle_all [] db = db
  handle_all ((services, event) ∷ events) db = handle_all events (handle services event db)

  handle-Ledgers :
      (services : Services) (event : Event) (db : Db)
      → IsValid (schema services.table) db.swaps
      → Ledgers services.table db (handle services event db)
  unfolding handle
  handle-Ledgers services (Event.status_update u) db v =
      (on_new_status-Refines services parse u).at db v
  handle-Ledgers services (Event.liquid_block height) db v =
      (on_liquid_block-Refines services height).at db v

  -- Whatever sequence of status updates and new blocks the handler of receive swaps gets, one after
  -- the other, each with answers of its own of the swapper, the wallet and the chain services, and
  -- whatever fails on the way, in a table whose ids are unique, also against their hashes: what it
  -- does to the claims is a sequence of steps of the ledger, each of which claims a swap that was
  -- not claimed, and broadcasts that one claim. So a swap is claimed at most once, also if a claim
  -- failed and is tried again, and its claim is not forgotten.
  pub receive_handler-Refines :
      (table : Table) (events : List (Services × Event)) (db : Db)
      → All (λ (e : Services × Event). table.id_hash ≡ e.0.table.id_hash) events
      → IsValid (schema table) db.swaps
      → view db ⇒* view (handle_all events db)
  unfolding handle_all
  receive_handler-Refines table [] db same v = as_before
  receive_handler-Refines table ((services, event) ∷ events) db (e, same) v =
      let w = hash-IsValid table services.table db.swaps e v in
      let h = handle-Ledgers services event db w in
      ⇒*-trans h.moved (
        receive_handler-Refines table events (handle services event db) same (
          hash-IsValid services.table table (handle services event db).swaps (sym e)
            (IsValid-Rows (schema services.table) (λ s t i. i) h.same_ids w)))
