-- ===== src/Persist/Claims.antt =====
-- The column `claim_tx_id` that the tables of receive and chain swaps have: how a claim is recorded,
-- and taken back if it could not be broadcast.
use breez_sdk_liquid.Base.{
  String, Bool, true, false, ◌&&◌, Option, some, none, List, [], ◌∷◌, ◌≡◌, refl, sym, ◌∙◌, ◌⊎◌, inl,
  inr, All, Bool-cases, is_none, any,
}
use breez_sdk_liquid.Base.Text.{str_eq, str_eq_refl}
use breez_sdk_liquid.Base.Result.{Result, is_ok}
use breez_sdk_liquid.Persist.{Schema, has_id, update_where, update_row}
use breez_sdk_liquid.Persist.Rows.{Rows, Rows-trans, Rows-compose, no_rows, row}

pub is_none-eq : {A : Type 0} (o : Option A) → is_none o ≡ true → o ≡ none
is_none-eq none h = refl
is_none-eq (some x) h = cc

module _ {A : Type 0} (schema : Schema A) (claim_of : A → Option String) where
  -- A row that is claimed by the same transaction as before, or not claimed as before.
  abbrev pub SameClaim : A → A → Type 0
  SameClaim s t = (schema.id s ≡ schema.id t) × (claim_of s ≡ claim_of t)

  -- A row with the id was unclaimed and is claimed by the transaction; another one is as before.
  abbrev pub ClaimedBy : String → String → A → A → Type 0
  ClaimedBy id tx s t =
      (schema.id s ≡ schema.id t)
      × (((str_eq (schema.id s) id ≡ true) × (claim_of s ≡ none) × (claim_of t ≡ some tx))
          ⊎ ((str_eq (schema.id s) id ≡ false) × (claim_of s ≡ claim_of t)))

  SameClaim-trans : (s t u : A) → SameClaim s t → SameClaim t u → SameClaim s u
  SameClaim-trans s t u (i, c) (j, d) = (i ∙ j, c ∙ d)

  SameClaim-ClaimedBy :
      (id tx : String) (s t u : A) → SameClaim s t → ClaimedBy id tx t u → ClaimedBy id tx s u
  SameClaim-ClaimedBy id tx s t u (i, c) (j, inl (e, free, d)) = (i ∙ j, inl (rw i e, c ∙ free, d))
  SameClaim-ClaimedBy id tx s t u (i, c) (j, inr (e, d)) = (i ∙ j, inr (rw i e, c ∙ d))

  SameClaim-any :
      (id : String) {ss ts : List A}
      → Rows SameClaim ss ts
      → any (λ (s : A). str_eq (schema.id s) id) ss ≡ any (λ (s : A). str_eq (schema.id s) id) ts
  SameClaim-any id no_rows = refl
  SameClaim-any id (row (i, c) h) = rw (i, SameClaim-any id h) refl

  module _ {S : Type 0} (rows_of : S → List A) (broadcasts_of : S → List String) where
    -- A start that differs only in what a claim does not read.
    abbrev pub Alike : S → S → Type 0
    Alike s s1 = (broadcasts_of s1 ≡ broadcasts_of s) × Rows SameClaim (rows_of s) (rows_of s1)

  module _ {E S : Type 0} (rows_of : S → List A) (broadcasts_of : S → List String) where
    -- Nothing was broadcast and no row is claimed that was not.
    abbrev pub NotClaimed : S → Result E (Unit {0}) × S → Type 0
    NotClaimed s (result, s') =
        (is_ok result ≡ false)
        × (broadcasts_of s' ≡ broadcasts_of s)
        × Rows SameClaim (rows_of s) (rows_of s')

    -- One transaction was broadcast, and claims the rows with the id, of which there are some.
    abbrev pub Claimed : String → S → Result E (Unit {0}) × S → Type 0
    Claimed id s (result, s') =
        (tx : String) × (is_ok result ≡ true)
        × (broadcasts_of s' ≡ tx ∷ broadcasts_of s)
        × (any (λ (r : A). str_eq (schema.id r) id) (rows_of s) ≡ true)
        × Rows (ClaimedBy id tx) (rows_of s) (rows_of s')

    abbrev pub ClaimOutcome : String → S → Result E (Unit {0}) × S → Type 0
    ClaimOutcome id s end = NotClaimed s end ⊎ Claimed id s end

    pub ClaimOutcome-after :
        (id : String) (s s1 : S) (end : Result E (Unit {0}) × S)
        → Alike rows_of broadcasts_of s s1
        → ClaimOutcome id s1 end
        → ClaimOutcome id s end
    ClaimOutcome-after id s s1 end (b, rs) (inl (bad, quiet, rows)) =
        inl (bad, quiet ∙ b, Rows-trans SameClaim-trans rs rows)
    ClaimOutcome-after id s s1 end (b, rs) (inr (tx, good, one, there, rows)) = inr (
      tx,
      good,
      rw (← b) one,
      SameClaim-any id rs ∙ there,
      Rows-compose (SameClaim-ClaimedBy id tx) rs rows,
    )

  -- What records a claim in a row, and what takes it back.
  pub record Marking (tx : String) : Type 0 where
    pub lock : A → A
    pub unlock : A → A
    pub lock-id : (s : A) → schema.id (lock s) ≡ schema.id s
    pub lock-claim : (s : A) → claim_of (schema.touch (lock s)) ≡ some tx
    pub unlock-id : (s : A) → schema.id (unlock s) ≡ schema.id s
    pub unlock-claim : (s : A) → claim_of (schema.touch (unlock s)) ≡ none

  module _ (id tx : String) (marking : Marking tx) where
    abbrev is_unclaimed : A → Bool
    is_unclaimed s = has_id schema id s && is_none (claim_of s)

    abbrev is_claimed_by : A → Bool
    is_claimed_by s =
        has_id schema id s && elim (claim_of s) [ some t ↦ str_eq t tx | none ↦ Bool.false ]

    abbrev pub locked : List A → List A
    locked rows = update_where schema is_unclaimed marking.lock rows

    abbrev pub undone : List A → List A
    undone rows = update_where schema is_claimed_by marking.unlock rows

    -- The rows with the id are not claimed.
    abbrev pub AreFree : List A → Type 0
    AreFree rows = All (λ (s : A). has_id schema id s ≡ true → is_none (claim_of s) ≡ true) rows

    touched_id : (s : A) → schema.id (schema.touch (marking.lock s)) ≡ schema.id s
    touched_id s = schema.touch-id (marking.lock s) ∙ marking.lock-id s

    undone_id : (s : A) → schema.id (schema.touch (marking.unlock s)) ≡ schema.id s
    undone_id s = schema.touch-id (marking.unlock s) ∙ marking.unlock-id s

    row-SameClaim :
        (s : A)
        → (has_id schema id s ≡ true → is_none (claim_of s) ≡ true)
        → SameClaim s (
            update_row schema is_claimed_by marking.unlock
              (update_row schema is_unclaimed marking.lock s))
    row-SameClaim s free = elim (Bool-cases (has_id schema id s)) [
      | inr e ↦ rw e (rw e (refl, refl))
      | inl e ↦
          let t : A = schema.touch (marking.lock s) in
          rw (e, free e)
            (rw (touched_id s, e, marking.lock-claim s, str_eq_refl tx)
              (
                sym (undone_id t ∙ touched_id s),
                is_none-eq (claim_of s) (free e) ∙ sym (marking.unlock-claim t),
              ))
    ]

    pub undone-Rows : (rows : List A) → AreFree rows → Rows SameClaim rows (undone (locked rows))
    undone-Rows [] h = no_rows
    undone-Rows (s ∷ rows) (free, h) = row (row-SameClaim s free) (undone-Rows rows h)

    row-ClaimedBy :
        (s : A)
        → (has_id schema id s ≡ true → is_none (claim_of s) ≡ true)
        → ClaimedBy id tx s (update_row schema is_unclaimed marking.lock s)
    row-ClaimedBy s free = elim (Bool-cases (has_id schema id s)) [
      | inr e ↦ rw e (refl, inr (refl, refl))
      | inl e ↦
          rw (e, free e)
            (sym (touched_id s), inl (refl, is_none-eq (claim_of s) (free e), marking.lock-claim s))
    ]

    pub locked-Rows : (rows : List A) → AreFree rows → Rows (ClaimedBy id tx) rows (locked rows)
    locked-Rows [] h = no_rows
    locked-Rows (s ∷ rows) (free, h) = row (row-ClaimedBy s free) (locked-Rows rows h)
