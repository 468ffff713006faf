-- ===== src/Chain/Safety/Quote.antt =====
-- The amount that counts as accepted for a swap is the one of a quote that the swapper accepted.
use breez_sdk_liquid.Base.{
  ℕ, String, Bool, true, Option, some, none, List, [], ◌∷◌, map, ◌≡◌, refl, sym, ap, ◌∙◌, ◌⊎◌, inl,
  inr, All, Bool-cases, Option-cases,
}
use mathlib.Core.Path.{subst}
use breez_sdk_liquid.Base.Text.{str_eq}
use breez_sdk_liquid.Base.Result.{Result, ok, err, Result-cases}
use breez_sdk_liquid.Base.Exec.{lift, done, change, when, bind-done, bind-fail, ◌>>=◌}
use breez_sdk_liquid.Base.Exec.Keeps.{Keeps, keeps_rules, Keeps-change}
use breez_sdk_liquid.Model.{ChainSwap}
use breez_sdk_liquid.Model.Errors.{PaymentError}
use breez_sdk_liquid.Persist.{Table, update_where}
use breez_sdk_liquid.Chain.Amountless.{
  ValidateAmountlessSwapResult, ready_for_accepting, requires_user_action, validate_amountless_swap,
}
use breez_sdk_liquid.Chain.Store.{
  Db, Action, ChainSwapUpdate, schema, id_is, set_update, try_handle_chain_swap_update,
  update_actual_payer_amount, update_accepted_receiver_amount, set_chain_swap_auto_accepted_fees,
}
use breez_sdk_liquid.Chain.Handler.{Services, fetch_chain_swap_by_id, notify, update_swap_info}
use breez_sdk_liquid.Chain.Handler.Fees.{
  erase_accepted, accept_quote, after_accept, on_validated, handle_amountless_update,
}

-- The accepted amounts by swap id.
abbrev pub amounts : List ChainSwap → List (String × Option ℕ)
amounts rows = map (λ (s : ChainSwap). (s.id, s.accepted_receiver_amount_sat)) rows

abbrev pub quotes_and_amounts : Db → List (String × ℕ) × List (String × Option ℕ)
quotes_and_amounts db = (db.accepted_quotes, amounts db.swaps)

-- The rows with the id have this accepted amount.
abbrev pub IsAmount : String → Option ℕ → List (String × Option ℕ) → Type 0
IsAmount id amount rows = All (λ (p : String × Option ℕ). str_eq p.0 id ≡ true → p.1 ≡ amount) rows

module _ (table : Table) where
  -- An UPDATE that leaves the ids and the accepted amounts as they are.
  amounts-update :
      (test : ChainSwap → Bool) (set : ChainSwap → ChainSwap)
      → ((s : ChainSwap) → (set s).id ≡ s.id)
      → ((s : ChainSwap) → (set s).accepted_receiver_amount_sat ≡ s.accepted_receiver_amount_sat)
      → (rows : List ChainSwap) → amounts (update_where (schema table) test set rows) ≡ amounts rows
  amounts-update test set same_id same_amount [] = refl
  amounts-update test set same_id same_amount (s ∷ rows) = elim (Bool-cases (test s)) [
    | inl e ↦
        rw (e, amounts-update test set same_id same_amount rows, same_id s, same_amount s) refl
    | inr e ↦ rw (e, amounts-update test set same_id same_amount rows) refl
  ]

  abbrev with_amount : String → Option ℕ → List ChainSwap → List ChainSwap
  with_amount id amount rows =
      update_where (schema table) (id_is table id)
        (λ (s : ChainSwap). record s { accepted_receiver_amount_sat = amount }) rows

  with_amount-IsAmount :
      (id : String) (amount : Option ℕ) (rows : List ChainSwap)
      → IsAmount id amount (amounts (with_amount id amount rows))
  with_amount-IsAmount id amount [] = tt
  with_amount-IsAmount id amount (s ∷ rows) = elim (Bool-cases (id_is table id s)) [
    | inl e ↦ rw e ((λ h. refl), with_amount-IsAmount id amount rows)
    | inr e ↦ rw e ((λ h. absurd (cc)), with_amount-IsAmount id amount rows)
  ]

  actual_payer-Keeps :
      (id : String) (amount : ℕ)
      → Keeps quotes_and_amounts (update_actual_payer_amount table id amount)
  unfolding update_actual_payer_amount
  actual_payer-Keeps id amount = Keeps-change _ (λ db.
      ap (λ rows. (db.accepted_quotes, rows))
        (amounts-update (id_is table id) (λ s. record s { actual_payer_amount_sat = some amount })
          (λ s. refl) (λ s. refl) db.swaps))

  auto_accepted-Keeps :
      (id : String) → Keeps quotes_and_amounts (set_chain_swap_auto_accepted_fees table id)
  unfolding set_chain_swap_auto_accepted_fees
  auto_accepted-Keeps id = Keeps-change _ (λ db.
      ap (λ rows. (db.accepted_quotes, rows))
        (amounts-update (id_is table id) (λ s. record s { auto_accepted_fees = true }) (λ s. refl)
          (λ s. refl) db.swaps))

  handle_update-Keeps :
      (u : ChainSwapUpdate) → Keeps quotes_and_amounts (try_handle_chain_swap_update table u)
  unfolding try_handle_chain_swap_update
  handle_update-Keeps u = Keeps-change _ (λ db.
      ap (λ rows. (db.accepted_quotes, rows))
        (amounts-update (id_is table u.swap_id) (set_update u) (λ s. refl) (λ s. refl) db.swaps))

module _ (services : Services) where
  fetch-Keeps : (id : String) → Keeps quotes_and_amounts (fetch_chain_swap_by_id services id)
  unfolding fetch_chain_swap_by_id
  fetch-Keeps id = record { at = λ db. refl }

  notify-Keeps : (id : String) → Keeps quotes_and_amounts (notify id)
  unfolding notify
  notify-Keeps id = Keeps-change _ (λ db. refl)

  update_swap_info-Keeps :
      (u : ChainSwapUpdate) → Keeps quotes_and_amounts (update_swap_info services u)
  unfolding update_swap_info
  update_swap_info-Keeps u =
      search (keeps_rules, fetch-Keeps, notify-Keeps, handle_update-Keeps) depth 20

  -- Nothing is accepted: the swapper took no quote, and no amount is recorded.
  abbrev pub NotAccepted : String → List (String × ℕ) → Db → Type 0
  NotAccepted id quotes db = (db.accepted_quotes ≡ quotes) × IsAmount id none (amounts db.swaps)

  -- The swapper took its quote, which was good, and the amount is the one of that quote.
  abbrev pub Accepted : ChainSwap → List (String × ℕ) → Db → Type 0
  Accepted swap quotes db =
      (quote lockup receiver : ℕ) × (services.get_zero_amount_chain_swap_quote swap.id ≡ ok quote)
      × (validate_amountless_swap services.quoting swap quote
          ≡ ok (ready_for_accepting lockup receiver))
      × (db.accepted_quotes ≡ (swap.id, quote) ∷ quotes)
      × IsAmount swap.id (some receiver) (amounts db.swaps)

  abbrev pub Outcome : ChainSwap → List (String × ℕ) → Db → Type 0
  Outcome swap quotes db = NotAccepted swap.id quotes db ⊎ Accepted swap quotes db

  -- What leaves quotes and amounts alone leaves nothing accepted.
  kept-NotAccepted :
      {A : Type 0} (action : Action A) (id : String) (db : Db)
      → Keeps quotes_and_amounts action
      → IsAmount id none (amounts db.swaps)
      → NotAccepted id db.accepted_quotes (action db).1
  kept-NotAccepted action id db h e = (
    ap (λ (p : List (String × ℕ) × List (String × Option ℕ)). p.0) (h.at db),
    subst (λ (rows : List (String × Option ℕ)). IsAmount id none rows)
        (sym (ap (λ (p : List (String × ℕ) × List (String × Option ℕ)). p.1) (h.at db))) e,
  )

  user_action-NotAccepted :
      (id : String) (quote lockup : ℕ) (db : Db)
      → IsAmount id none (amounts db.swaps)
      → NotAccepted id db.accepted_quotes
          (on_validated services id quote (requires_user_action lockup) db).1
  unfolding on_validated
  user_action-NotAccepted id quote lockup db e =
      kept-NotAccepted (on_validated services id quote (requires_user_action lockup)) id db
        (search (keeps_rules, actual_payer-Keeps, update_swap_info-Keeps)) e

  -- A quote that the swapper does not take leaves no amount.
  refused-NotAccepted :
      (id : String) (quote lockup receiver : ℕ) (db : Db) {failure : PaymentError}
      → services.accept_zero_amount_chain_swap_quote id quote ≡ err failure
      → NotAccepted id db.accepted_quotes
          (on_validated services id quote (ready_for_accepting lockup receiver) db).1
  unfolding on_validated accept_quote after_accept ◌>>=◌ update_actual_payer_amount
      update_accepted_receiver_amount
  refused-NotAccepted id quote lockup receiver db e =
      rw (e, on_validated, accept_quote) (refl, with_amount-IsAmount services.table id none _)

  taken-IsAmount :
      (id : String) (quote lockup receiver : ℕ) (db : Db) {u : Unit {0}}
      → services.accept_zero_amount_chain_swap_quote id quote ≡ ok u
      → ((on_validated services id quote (ready_for_accepting lockup receiver) db).1.accepted_quotes
          ≡ (id, quote) ∷ db.accepted_quotes)
        × IsAmount id (some receiver) (
            amounts
              (on_validated services id quote (ready_for_accepting lockup receiver) db).1.swaps)
  unfolding on_validated accept_quote after_accept ◌>>=◌ update_actual_payer_amount
      update_accepted_receiver_amount set_chain_swap_auto_accepted_fees
  taken-IsAmount id quote lockup receiver db e =
      rw (e, on_validated, accept_quote)
        (
          refl,
          rw
              (amounts-update services.table (id_is services.table id)
                (λ s. record s { auto_accepted_fees = true }) (λ s. refl) (λ s. refl) _)
              (with_amount-IsAmount services.table id (some receiver) _),
        )

  -- From a database with no accepted amount for the swap.
  abbrev from_quote : ChainSwap → Action (Unit {0})
  from_quote swap = do
    quote ← lift (services.get_zero_amount_chain_swap_quote swap.id)
    validated ← lift (validate_amountless_swap services.quoting swap quote)
    on_validated services swap.id quote validated

  validated-Outcome :
      (swap : ChainSwap) (quote : ℕ) (result : ValidateAmountlessSwapResult) (db : Db)
      → services.get_zero_amount_chain_swap_quote swap.id ≡ ok quote
      → validate_amountless_swap services.quoting swap quote ≡ ok result
      → IsAmount swap.id none (amounts db.swaps)
      → Outcome swap db.accepted_quotes (on_validated services swap.id quote result db).1
  validated-Outcome swap quote (requires_user_action lockup) db q v e =
      inl (user_action-NotAccepted swap.id quote lockup db e)
  validated-Outcome swap quote (ready_for_accepting lockup receiver) db q v e =
      elim (Result-cases (services.accept_zero_amount_chain_swap_quote swap.id quote)) [
        | inl (failure, no_deal) ↦
            inl (refused-NotAccepted swap.id quote lockup receiver db no_deal)
        | inr (u, deal) ↦
            let (quotes, amount) = taken-IsAmount swap.id quote lockup receiver db deal in
            inr (quote, lockup, receiver, q, v, quotes, amount)
      ]

  ends-Outcome :
      (swap : ChainSwap) (quotes : List (String × ℕ))
      (start end : Result PaymentError (Unit {0}) × Db)
      → start ≡ end
      → Outcome swap quotes end.1
      → Outcome swap quotes start.1
  ends-Outcome swap quotes start end e h =
      subst (λ (r : Result PaymentError (Unit {0}) × Db). Outcome swap quotes r.1) (sym e) h

  from_quote-Outcome :
      (swap : ChainSwap) (db : Db)
      → IsAmount swap.id none (amounts db.swaps)
      → Outcome swap db.accepted_quotes (from_quote swap db).1
  unfolding lift
  from_quote-Outcome swap db e =
      elim (Result-cases (services.get_zero_amount_chain_swap_quote swap.id)) [
        | inl (failure, q) ↦
            ends-Outcome swap db.accepted_quotes _ (err failure, db) (bind-fail _ _ db (rw q refl))
              (inl (refl, e))
        | inr (quote, q) ↦
            elim (Result-cases (validate_amountless_swap services.quoting swap quote)) [
              | inl (failure, v) ↦
                  ends-Outcome swap db.accepted_quotes _ (err failure, db)
                    (bind-done _ _ db {value = quote} {s' = db} (rw q refl)
                      ∙ bind-fail _ _ db (rw v refl))
                    (inl (refl, e))
              | inr (result, v) ↦
                  ends-Outcome swap db.accepted_quotes _
                    (on_validated services swap.id quote result db)
                    (bind-done _ _ db {value = quote} {s' = db} (rw q refl)
                      ∙ bind-done _ _ db {value = result} {s' = db} (rw v refl))
                    (validated-Outcome swap quote result db q v e)
            ]
      ]

  -- Handling a swap without an amount ends in one of two ways, whatever fails, if the handler's copy
  -- of the swap and its rows agree on the accepted amount. Either the swapper took no quote and no
  -- amount counts as accepted, also if one did before; or the swapper took the quote that it gave,
  -- the quote was good enough, and the amount that counts as accepted is the one of that quote.
  pub handle_amountless-Outcome :
      (swap : ChainSwap) (db : Db)
      → IsAmount swap.id swap.accepted_receiver_amount_sat (amounts db.swaps)
      → Outcome swap db.accepted_quotes (handle_amountless_update services swap db).1
  unfolding handle_amountless_update when done change update_accepted_receiver_amount
  handle_amountless-Outcome swap db agree =
      elim (Option-cases (swap.accepted_receiver_amount_sat)) [
        | inl fresh ↦
            ends-Outcome swap db.accepted_quotes _ (from_quote swap db)
              (bind-done _ _ db {value = tt} {s' = db} (rw fresh refl))
              (from_quote-Outcome swap db (rw fresh at agree))
        | inr (old, stale) ↦
            let erased : Db = (erase_accepted services swap.id db).1 in
            ends-Outcome swap db.accepted_quotes _ (from_quote swap erased)
              (bind-done _ _ db {value = tt} {s' = erased} (rw stale refl))
              (from_quote-Outcome swap erased
                (with_amount-IsAmount services.table swap.id none db.swaps))
      ]
