-- ===== src/Receive/Moves.antt =====
-- What the handler of receive swaps may do to the rows of the table.
pub mod Handler
pub mod Claim
pub mod Status
use breez_sdk_liquid.Base.{ℕ, String, Bool, Option, some, none, List, ◌≡◌, refl}
use breez_sdk_liquid.Base.Exec.{change}
use breez_sdk_liquid.Model.{ReceiveSwap, PaymentState}
use breez_sdk_liquid.Persist.{Table, update_where}
use breez_sdk_liquid.Persist.Sound.{Motion}
use breez_sdk_liquid.Persist.Sound as Any
use breez_sdk_liquid.Receive.Store.{
  Db, Action, schema, set_update, touch, id_is, unclaimed, claimed_by,
  set_receive_swap_claim_address, set_receive_swap_claim_tx_id, unset_receive_swap_claim_tx_id,
  delete_reserved_address,
}
use breez_sdk_liquid.Receive.Transition.Graph.{◌⟶◌, ◌⟶*◌, here, then}

-- The state moves along the life cycle; the invoice and the amounts stay, and so does a lockup or a
-- direct payment once it is known.
pub record Moves (s t : ReceiveSwap) : Type 0 where
  pub same_id : s.id ≡ t.id
  pub same_invoice : s.invoice ≡ t.invoice
  pub same_payer_amount : s.payer_amount_sat ≡ t.payer_amount_sat
  pub same_receiver_amount : s.receiver_amount_sat ≡ t.receiver_amount_sat
  pub moved : s.state ⟶* t.state
  pub keeps_lockup : (tx : String) → s.lockup_tx_id ≡ some tx → t.lockup_tx_id ≡ some tx
  pub keeps_mrh : (tx : String) → s.mrh_tx_id ≡ some tx → t.mrh_tx_id ≡ some tx

moves_trans : {s t u : PaymentState} → s ⟶* t → t ⟶* u → s ⟶* u
moves_trans r here = r
moves_trans r (then q e) = then (moves_trans r q) e

-- A change of what `Moves` does not speak of.
aside-Moves :
    (s t : ReceiveSwap)
    → s.id ≡ t.id
    → s.invoice ≡ t.invoice
    → s.payer_amount_sat ≡ t.payer_amount_sat
    → s.receiver_amount_sat ≡ t.receiver_amount_sat
    → s.state ≡ t.state
    → s.lockup_tx_id ≡ t.lockup_tx_id
    → s.mrh_tx_id ≡ t.mrh_tx_id
    → Moves s t
aside-Moves s t i n p r st l m = record {
  same_id = i;
  same_invoice = n;
  same_payer_amount = p;
  same_receiver_amount = r;
  moved = rw (← st) here;
  keeps_lockup = λ tx h. cc;
  keeps_mrh = λ tx h. cc;
}

pub Moves-trans : (s t u : ReceiveSwap) → Moves s t → Moves t u → Moves s u
Moves-trans s t u m n = record {
  same_id = cc;
  same_invoice = cc;
  same_payer_amount = cc;
  same_receiver_amount = cc;
  moved = moves_trans m.moved n.moved;
  keeps_lockup = λ tx h. n.keeps_lockup tx (m.keeps_lockup tx h);
  keeps_mrh = λ tx h. n.keeps_mrh tx (m.keeps_mrh tx h);
}

pub Moves-refl : (s : ReceiveSwap) → Moves s s
Moves-refl s = aside-Moves s s refl refl refl refl refl refl refl

pub motion : (table : Table) → Motion (schema table) Moves
motion table = record { same = Moves-refl; compose = Moves-trans; keeps_id = λ s t m. m.same_id }

-- An update along an edge of the life cycle, without an amount that was paid directly.
pub set_update-Moves :
    (table : Table) (to : PaymentState) (claim lockup mrh : Option String) (s : ReceiveSwap)
    → s.state ⟶ to
    → Moves s (touch table (set_update to claim lockup mrh none s))
set_update-Moves table to claim lockup mrh s edge = record {
  same_id = refl;
  same_invoice = refl;
  same_payer_amount = refl;
  same_receiver_amount = refl;
  moved = then here edge;
  keeps_lockup = λ tx h. rw h;
  keeps_mrh = λ tx h. rw h;
}

abbrev pub rows_of : Db → List ReceiveSwap
rows_of db = db.swaps

-- An action that a valid table survives, each of its rows moving as it may.
abbrev pub Sound : Table → {B : Type 0} → Action B → Type 0
Sound table action = Any.Sound rows_of (schema table) (motion table) action

module _ (table : Table) where
  aside :
      {B : Type 0} (action : Action B) (test : ReceiveSwap → Bool) (set : ReceiveSwap → ReceiveSwap)
      → ((db : Db) → (action db).1.swaps ≡ update_where (schema table) test set db.swaps)
      → ((s : ReceiveSwap) → Moves s (touch table (set s)))
      → Sound table action
  aside action test set written moves =
      Any.update-Sound rows_of (schema table) (motion table) action test set written moves

  pub claim_address-Sound :
      (id address : String) → Sound table (set_receive_swap_claim_address table id address)
  unfolding set_receive_swap_claim_address change
  claim_address-Sound id address =
      aside (set_receive_swap_claim_address table id address) (id_is table id)
        (λ s. record s { claim_address = some address }) (λ db. refl)
        (λ s. aside-Moves s _ refl refl refl refl refl refl refl)

  pub set_claim-Sound :
      (id tx_id : String) → Sound table (set_receive_swap_claim_tx_id table id tx_id)
  unfolding set_receive_swap_claim_tx_id
  set_claim-Sound id tx_id =
      aside (set_receive_swap_claim_tx_id table id tx_id) (unclaimed table id)
        (λ s. record s { claim_tx_id = some tx_id }) (λ db. refl)
        (λ s. aside-Moves s _ refl refl refl refl refl refl refl)

  pub unset_claim-Sound :
      (id tx_id : String) → Sound table (unset_receive_swap_claim_tx_id table id tx_id)
  unfolding unset_receive_swap_claim_tx_id change
  unset_claim-Sound id tx_id =
      aside (unset_receive_swap_claim_tx_id table id tx_id) (claimed_by table id tx_id)
        (λ s. record s { claim_tx_id = none }) (λ db. refl)
        (λ s. aside-Moves s _ refl refl refl refl refl refl refl)

  pub delete_reserved-Sound : (address : String) → Sound table (delete_reserved_address address)
  unfolding delete_reserved_address
  delete_reserved-Sound address = Any.change-Sound rows_of _ (motion table) _ (λ db. refl)

pub ruleset store_rules = (
  Any.sound_rules, claim_address-Sound, set_claim-Sound, unset_claim-Sound, delete_reserved-Sound,
)
