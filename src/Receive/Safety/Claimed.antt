-- ===== src/Receive/Safety/Claimed.antt =====
-- How a claim of a receive swap may end, and what records it and takes it back.
use breez_sdk_liquid.Base.{String, Bool, Option, some, none, List, refl, is_none}
use breez_sdk_liquid.Base.Result.{Result}
use breez_sdk_liquid.Model.{ReceiveSwap}
use breez_sdk_liquid.Model.Errors.{PaymentError}
use breez_sdk_liquid.Persist.{Table}
use breez_sdk_liquid.Persist.Claims as Any
use breez_sdk_liquid.Receive.Store.{Db, schema}

abbrev pub rows_of : Db → List ReceiveSwap
rows_of db = db.swaps

abbrev pub broadcasts_of : Db → List String
broadcasts_of db = db.broadcasts

abbrev pub claim_of : ReceiveSwap → Option String
claim_of s = s.claim_tx_id

abbrev pub is_unclaimed : ReceiveSwap → Bool
is_unclaimed s = is_none s.claim_tx_id

module _ (table : Table) where
  -- A row that is claimed by the same transaction as before, or not claimed as before.
  abbrev pub SameClaim : ReceiveSwap → ReceiveSwap → Type 0
  SameClaim = Any.SameClaim (schema table) claim_of

  -- Nothing was broadcast, and no row is claimed that was not; or one transaction was broadcast, and
  -- claims the rows with the id, which were not claimed.
  abbrev pub ClaimOutcome : String → Db → Result PaymentError (Unit {0}) × Db → Type 0
  ClaimOutcome = Any.ClaimOutcome (schema table) claim_of rows_of broadcasts_of

  abbrev pub Alike : Db → Db → Type 0
  Alike = Any.Alike (schema table) claim_of rows_of broadcasts_of

  abbrev pub marking : (tx : String) → Any.Marking (schema table) claim_of tx
  marking tx = record {
    lock = λ s. record s { claim_tx_id = some tx };
    unlock = λ s. record s { claim_tx_id = none };
    lock-id = λ s. refl;
    lock-claim = λ s. refl;
    unlock-id = λ s. refl;
    unlock-claim = λ s. refl;
  }

  abbrev pub locked : String → String → List ReceiveSwap → List ReceiveSwap
  locked id tx rows = Any.locked (schema table) claim_of id tx (marking tx) rows

  abbrev pub undone : String → String → List ReceiveSwap → List ReceiveSwap
  undone id tx rows = Any.undone (schema table) claim_of id tx (marking tx) rows
