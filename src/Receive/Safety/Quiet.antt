-- ===== src/Receive/Safety/Quiet.antt =====
-- Nothing is claimed unless the checks passed.
use breez_sdk_liquid.Base.{
  ℕ, String, Bool, true, false, not, ◌&&◌, Option, some, none, List, ◌≡◌, ◌≤◌, arith, ◌⊎◌, inl, inr,
  refl, ltb, any,
}
use breez_sdk_liquid.Base.Result.{Result, ok, err, ok_or, map_err, Result-cases}
use breez_sdk_liquid.Base.Exec.{◌>>=◌}
use breez_sdk_liquid.Base.Exec.Keeps.{Keeps, keeps_rules, Keeps-change}
use breez_sdk_liquid.Base.Exec.Unless.{
  Unless, Unless-Keeps, Unless-holds, Unless-when, Unless-lift, Unless-bind, Unless-guard,
  Keeps-failed,
}
use breez_sdk_liquid.Model.{ReceiveSwap, PaymentState}
use breez_sdk_liquid.Model.Errors.{PaymentError, AnyError, generic}
use breez_sdk_liquid.Persist.{fetch_by_id}
use breez_sdk_liquid.Chain.Handler.Check.{TransactionInfo}
use breez_sdk_liquid.Chain.Handler.Status.{SwapStatus}
use breez_sdk_liquid.Receive.Store.{
  Db, Action, schema, delete_reserved_address, try_handle_receive_swap_update,
}
use breez_sdk_liquid.Receive.Handler.{
  Services, LockupTx, fetch_receive_swap_by_id, notify, update_swap_info,
}
use breez_sdk_liquid.Persist.Claims.{is_none-eq}
use breez_sdk_liquid.Receive.Handler.Lockup.{verify_lockup_tx_status, verify_lockup_tx_amount}
use breez_sdk_liquid.Receive.Handler.Status.{
  RevSwapStates, max_amount_sat, is_zero_conf, broadcast_lockup, or_seen, after_amount, on_expired,
  on_mempool, claim_confirmed, on_confirmed, with_transaction, on_state, on_new_status,
}

abbrev pub claims_of : Db → List String
claims_of db = db.broadcasts

-- An action that broadcasts no claim.
abbrev Quiet : {A : Type 0} → Action A → Type 0
Quiet action = Keeps claims_of action

module _ (services : Services) (swap : ReceiveSwap) (t : TransactionInfo) where
  -- An unconfirmed lockup may be claimed: the swap is neither claimed nor paid directly, the lockup
  -- pays enough, the amount is small and the lockup can not be replaced.
  abbrev pub SafeUnconfirmed : Type 0
  SafeUnconfirmed =
      (hex : String) × (tx : LockupTx) × (swap.claim_tx_id ≡ none)
      × (swap.mrh_tx_id ≡ none)
      × (t.hex ≡ some hex)
      × (services.deserialize_tx_hex hex ≡ ok tx)
      × (verify_lockup_tx_amount services swap tx ≡ ok tt)
      × (swap.receiver_amount_sat ≤ max_amount_sat services)
      × (any (λ (rbf : Bool). rbf) tx.input_is_rbf ≡ false)

  -- A confirmed lockup may be claimed: the swap is neither claimed nor paid directly, the chain
  -- service knows the lockup as confirmed, and it pays enough.
  abbrev pub SafeConfirmed : Type 0
  SafeConfirmed =
      (hex : String) × (tx : LockupTx) × (swap.claim_tx_id ≡ none)
      × (swap.mrh_tx_id ≡ none)
      × (t.hex ≡ some hex)
      × (verify_lockup_tx_status services swap t.id hex true ≡ ok tx)
      × (verify_lockup_tx_amount services swap tx ≡ ok tt)

  abbrev pub SafeIn : RevSwapStates → Type 0
  SafeIn RevSwapStates.swap_expired = ⊥
  SafeIn RevSwapStates.invoice_expired = ⊥
  SafeIn RevSwapStates.transaction_failed = ⊥
  SafeIn RevSwapStates.transaction_refunded = ⊥
  SafeIn RevSwapStates.transaction_mempool = SafeUnconfirmed
  SafeIn RevSwapStates.transaction_confirmed = SafeConfirmed
  SafeIn (RevSwapStates.unhandled status) = ⊥

le-not-ltb : (a b : ℕ) → not (ltb a b) ≡ true → b ≤ a
le-not-ltb a b h = ground arith

and-parts : (a b : Bool) → (a && not b) ≡ true → (a ≡ true) × (b ≡ false)
and-parts true b h = (refl, ground arith)
and-parts false b h = cc

zero_conf-parts :
    (services : Services) (swap : ReceiveSwap) (tx : LockupTx)
    → is_zero_conf services swap tx ≡ true
    → (swap.receiver_amount_sat ≤ max_amount_sat services)
      × (any (λ (rbf : Bool). rbf) tx.input_is_rbf ≡ false)
unfolding is_zero_conf
zero_conf-parts services swap tx h =
    let (small, final) = and-parts _ _ h in
    (le-not-ltb (max_amount_sat services) swap.receiver_amount_sat small, final)

ok_or-eq-some :
    {A : Type 0} (o : Option A) {x : A} → ok_or {E = PaymentError} o generic ≡ ok x → o ≡ some x
ok_or-eq-some (some a) h = cc
ok_or-eq-some none h = cc

map_err-eq-ok :
    {A : Type 0} (result : Result AnyError A) {x : A}
    → map_err {F = PaymentError} (λ failure. generic) result ≡ ok x
    → result ≡ ok x
map_err-eq-ok (ok value) h = cc
map_err-eq-ok (err failure) h = cc

module _ (services : Services) where
  fetch-Quiet : (id : String) → Quiet (fetch_receive_swap_by_id services id)
  unfolding fetch_receive_swap_by_id
  fetch-Quiet id = record { at = λ db. refl }

  notify-Quiet : (id : String) → Quiet (notify id)
  unfolding notify
  notify-Quiet id = Keeps-change _ (λ db. refl)

  delete-Quiet : (address : String) → Quiet (delete_reserved_address address)
  unfolding delete_reserved_address
  delete-Quiet address = Keeps-change _ (λ db. refl)

  update-Quiet :
      (id : String) (to : PaymentState) (claim lockup mrh : Option String) (amount : Option ℕ)
      → Quiet (try_handle_receive_swap_update services.table id to claim lockup mrh amount)
  unfolding try_handle_receive_swap_update
  update-Quiet id to claim lockup mrh amount = Keeps-change _ (λ db. refl)

  update_swap_info-Quiet :
      (id : String) (to : PaymentState) (claim lockup mrh : Option String) (amount : Option ℕ)
      → Quiet (update_swap_info services id to claim lockup mrh amount)
  unfolding update_swap_info
  update_swap_info-Quiet id to claim lockup mrh amount =
      search (keeps_rules, fetch-Quiet, notify-Quiet, update-Quiet, delete-Quiet) depth 20

  ruleset quiet_rules = (keeps_rules, update_swap_info-Quiet)

  broadcast_lockup-Quiet : (tx : LockupTx) → Quiet (broadcast_lockup services tx)
  unfolding broadcast_lockup
  broadcast_lockup-Quiet tx = elim (Result-cases (services.lockup_broadcast tx)) [
    | inl (text, e) ↦ record { at = λ db. rw (e, broadcast_lockup) refl }
    | inr (tx_id, e) ↦ record { at = λ db. rw (e, broadcast_lockup) refl }
  ]

  or_seen-Quiet :
      (swap : ReceiveSwap) (tx_id tx_hex : String) (result : Result PaymentError String)
      → Quiet (or_seen services swap tx_id tx_hex result)
  unfolding or_seen
  or_seen-Quiet swap tx_id tx_hex (ok _) = search quiet_rules
  or_seen-Quiet swap tx_id tx_hex (err failure) = search quiet_rules

  on_expired-Quiet : (id : String) (mrh : Option String) → Quiet (on_expired services id mrh)
  unfolding on_expired
  on_expired-Quiet id none = search quiet_rules
  on_expired-Quiet id (some mrh) = search quiet_rules

  amount-Unless :
      {P : Type 0} (id : String) (result : Result AnyError (Unit {0}))
      (next : Unit {0} → Action (Unit {0}))
      → (result ≡ ok tt → Unless P claims_of (next tt))
      → Unless P claims_of (after_amount services id result >>= next)
  unfolding after_amount ◌>>=◌
  amount-Unless id (ok _) next h = h refl
  amount-Unless id (err failure) next h =
      Unless-Keeps _ (Keeps-failed _ generic next (update_swap_info-Quiet id _ _ _ _ _))

  mempool-Unless :
      (id : String) (swap : ReceiveSwap) (t : TransactionInfo)
      → Unless (SafeUnconfirmed services swap t) claims_of (on_mempool services id swap t)
  unfolding on_mempool
  mempool-Unless id swap t = Unless-guard _ _ _ (λ unclaimed. Unless-guard _ _ _ (λ unpaid.
      Unless-lift _ _ (λ hex h. Unless-lift _ _ (λ tx d.
        Unless-bind _ _ (search (keeps_rules, broadcast_lockup-Quiet)) (λ broadcast.
          Unless-bind _ _ (or_seen-Quiet swap t.id hex broadcast) (λ seen.
            amount-Unless id _ _ (λ enough.
              Unless-bind _ _ (update_swap_info-Quiet id _ _ _ _ _) (λ updated.
                Unless-when _ _ (λ small. Unless-holds _ (
                  hex,
                  tx,
                  is_none-eq swap.claim_tx_id unclaimed,
                  is_none-eq swap.mrh_tx_id unpaid,
                  ok_or-eq-some t.hex h,
                  map_err-eq-ok _ d,
                  enough,
                  (zero_conf-parts services swap tx small).0,
                  (zero_conf-parts services swap tx small).1,
                ))))))))))

  claim_confirmed-Unless :
      {P : Type 0} (id : String) (swap : ReceiveSwap) (claim_tx_id : Option String)
      → (claim_tx_id ≡ none → P)
      → Unless P claims_of (claim_confirmed services id swap claim_tx_id)
  unfolding claim_confirmed
  claim_confirmed-Unless id swap none h = Unless-holds _ (h refl)
  claim_confirmed-Unless id swap (some claim_tx_id) h = Unless-Keeps _ (search quiet_rules)

  confirmed-Unless :
      (id : String) (swap : ReceiveSwap) (t : TransactionInfo)
      → Unless (SafeConfirmed services swap t) claims_of (on_confirmed services id swap t)
  unfolding on_confirmed
  confirmed-Unless id swap t = Unless-guard _ _ _ (λ unpaid. Unless-lift _ _ (λ hex h.
      Unless-lift _ _ (λ tx d. amount-Unless id _ _ (λ enough.
        claim_confirmed-Unless id swap swap.claim_tx_id (λ unclaimed. (
          hex,
          tx,
          unclaimed,
          is_none-eq swap.mrh_tx_id unpaid,
          ok_or-eq-some t.hex h,
          map_err-eq-ok _ d,
          enough,
        ))))))

  -- What makes a claim safe, for an update of the swapper.
  abbrev pub SafeUpdate : SwapStatus → ReceiveSwap → RevSwapStates → Type 0
  SafeUpdate u swap state =
      (t : TransactionInfo) × (u.transaction ≡ some t) × SafeIn services swap t state

  transaction-Unless :
      (u : SwapStatus) (swap : ReceiveSwap) (state : RevSwapStates)
      (transaction : Option TransactionInfo) (next : TransactionInfo → Action (Unit {0}))
      → u.transaction ≡ transaction
      → ((t : TransactionInfo) → Unless (SafeIn services swap t state) claims_of (next t))
      → Unless (SafeUpdate u swap state) claims_of (with_transaction services transaction next)
  unfolding with_transaction
  transaction-Unless u swap state none next e h = Unless-Keeps _ (search quiet_rules)
  transaction-Unless u swap state (some t) next e h = record {
    at = λ s. elim ((h t).at s) [ inl same ↦ inl same | inr safe ↦ inr (t, e, safe) ];
  }

  on_state-Unless :
      (u : SwapStatus) (swap : ReceiveSwap) (state : RevSwapStates)
      → Unless (SafeUpdate u swap state) claims_of (on_state services u swap state)
  unfolding on_state
  on_state-Unless u swap RevSwapStates.swap_expired = Unless-Keeps _ (on_expired-Quiet u.id _)
  on_state-Unless u swap RevSwapStates.invoice_expired = Unless-Keeps _ (on_expired-Quiet u.id _)
  on_state-Unless u swap RevSwapStates.transaction_failed = Unless-Keeps _ (on_expired-Quiet u.id _)
  on_state-Unless u swap RevSwapStates.transaction_refunded =
      Unless-Keeps _ (on_expired-Quiet u.id _)
  on_state-Unless u swap RevSwapStates.transaction_mempool =
      transaction-Unless u swap RevSwapStates.transaction_mempool u.transaction _ refl
        (mempool-Unless u.id swap)
  on_state-Unless u swap RevSwapStates.transaction_confirmed =
      transaction-Unless u swap RevSwapStates.transaction_confirmed u.transaction _ refl
        (confirmed-Unless u.id swap)
  on_state-Unless u swap (RevSwapStates.unhandled status) = Unless-Keeps _ (search quiet_rules)

  -- A status update of the swapper for a known receive swap broadcasts no claim, unless it is safe
  -- to claim. The update then reports a lockup, the swap is neither claimed nor paid directly, and
  -- the lockup pays enough. It is confirmed as the chain service sees it, or it is reported in the
  -- mempool, is small enough to be claimed unconfirmed and does not signal a replacement.
  pub receive_claim-IsSafe :
      (parse : String → Option RevSwapStates) (u : SwapStatus) (swap : ReceiveSwap)
      (state : RevSwapStates) (db : Db)
      → fetch_by_id (schema services.table) u.id db.swaps ≡ some swap
      → parse u.status ≡ some state
      → ((on_new_status services parse u db).1.broadcasts ≡ db.broadcasts) ⊎ SafeUpdate u swap state
  unfolding on_new_status fetch_receive_swap_by_id ◌>>=◌
  receive_claim-IsSafe parse u swap state db found parsed =
      rw (parsed, on_new_status, found, fetch_receive_swap_by_id, ◌>>=◌)
        ((on_state-Unless u swap state).at db)
