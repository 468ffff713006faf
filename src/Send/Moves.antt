-- ===== src/Send/Moves.antt =====
-- What the handler of send swaps may do to the rows of the table, and how it follows for a sequence
-- of actions from its parts.
pub mod Handler
pub mod Refunds
pub mod Status
use breez_sdk_liquid.Base.{
  String, Bool, true, false, Option, some, none, List, [], ◌∷◌, ◌≡◌, refl, All, or_else, arith, ap,
}
use breez_sdk_liquid.Base.Result.{Result, ok, err}
use breez_sdk_liquid.Model.{SendSwap, PaymentState}
use breez_sdk_liquid.Model.Errors.{PaymentError}
use breez_sdk_liquid.Send.Store.{
  schema, Db, Table, Action, lift, ◌>>=◌, has_id, set_update, update_where,
  set_send_swap_refund_address, set_send_swap_lockup_tx_id, unset_send_swap_lockup_tx_id, unlocked,
  locked_by,
}
use breez_sdk_liquid.Persist.Sound.{All-rows}
use breez_sdk_liquid.Persist.Rows.{
  Rows, Rows-refl, Rows-trans, update_where-Rows, IsValid, IsValid-Rows,
}
use breez_sdk_liquid.Send.Transition.Graph.{◌⟶◌, ◌⟶*◌, here, then}

-- The state moves along the life cycle; the preimage and the refund transaction stay once they are
-- there.
pub record Moves (s t : SendSwap) : Type 0 where
  pub same_id : s.id ≡ t.id
  pub moved : s.state ⟶* t.state
  pub keeps_preimage : (p : String) → s.preimage ≡ some p → t.preimage ≡ some p
  pub keeps_refund : (tx : String) → s.refund_tx_id ≡ some tx → t.refund_tx_id ≡ some tx

moves_trans : {s t u : PaymentState} → s ⟶* t → t ⟶* u → s ⟶* u
moves_trans r here = r
moves_trans r (then q e) = then (moves_trans r q) e

pub Moves-refl : (s : SendSwap) → Moves s s
Moves-refl s = record {
  same_id = refl;
  moved = here;
  keeps_preimage = λ p h. h;
  keeps_refund = λ tx h. h;
}

pub Moves-trans : (s t u : SendSwap) → Moves s t → Moves t u → Moves s u
Moves-trans s t u m n = record {
  same_id = cc;
  moved = moves_trans m.moved n.moved;
  keeps_preimage = λ p h. n.keeps_preimage p (m.keeps_preimage p h);
  keeps_refund = λ tx h. n.keeps_refund tx (m.keeps_refund tx h);
}

pub Moves-same_id : (s t : SendSwap) → Moves s t → s.id ≡ t.id
Moves-same_id s t m = m.same_id

-- A recorded update along an edge of the life cycle.
pub set_update-Moves :
    {to : PaymentState} (preimage lockup refund : Option String) (s : SendSwap)
    → s.state ⟶ to
    → Moves s (set_update to preimage lockup refund s)
set_update-Moves preimage lockup refund s edge = record {
  same_id = refl;
  moved = then here edge;
  keeps_preimage = λ p h. rw h;
  keeps_refund = λ tx h. rw h;
}

-- A change of anything but the id, the state, the preimage and the refund transaction.
pub aside-Moves :
    (s t : SendSwap)
    → s.id ≡ t.id
    → s.state ≡ t.state
    → s.preimage ≡ t.preimage
    → s.refund_tx_id ≡ t.refund_tx_id
    → Moves s t
aside-Moves s t i st p r = record {
  same_id = i;
  moved = rw (← st) here;
  keeps_preimage = λ q h. cc;
  keeps_refund = λ tx h. cc;
}

-- An action that a valid table survives, each of its rows moving as it may.
module _ (table : Table) where
  pub record Sound {A : Type 0} (action : Action A) : Type 0 where
    pub rows : (db : Db) → IsValid (schema table) db.swaps → Rows Moves db.swaps (action db).1.swaps

  pub unchanged-Sound :
      {A : Type 0} (action : Action A) → ((db : Db) → db.swaps ≡ (action db).1.swaps) → Sound action
  unchanged-Sound action same = record {
    rows = λ db v. rw (← same db) (Rows-refl Moves-refl db.swaps);
  }

  then_next :
      {A B : Type 0} (result : Result PaymentError A) (next : A → Action B) (ss : List SendSwap)
      (db : Db)
      → Rows Moves ss db.swaps
      → ((value : A) → Rows Moves db.swaps (next value db).1.swaps)
      → Rows Moves ss ((lift result >>= next) db).1.swaps
  unfolding ◌>>=◌
  then_next (err failure) next ss db h k = h
  then_next (ok value) next ss db h k = Rows-trans Moves-trans h (k value)

  pub bind-Sound :
      {A B : Type 0} (action : Action A) (next : A → Action B)
      → Sound action
      → ((value : A) → Sound (next value))
      → Sound (action >>= next)
  unfolding ◌>>=◌
  bind-Sound action next h k = record {
    rows = λ db v. then_next (action db).0 next db.swaps (action db).1 (h.rows db v) (λ value.
        (k value).rows (action db).1 (IsValid-Rows (schema table) Moves-same_id (h.rows db v) v));
  }

  -- An UPDATE that leaves the id, the state, the preimage and the refund as they are.
  pub update-Sound :
      {A : Type 0} (action : Action A) (test : SendSwap → Bool) (set : SendSwap → SendSwap)
      → ((db : Db) → (action db).1.swaps ≡ update_where table test set db.swaps)
      → ((s : SendSwap) → Moves s ((schema table).touch (set s)))
      → Sound action
  update-Sound action test set same moves = record {
    rows = λ db v. rw (same db) (
        update_where-Rows (schema table) Moves {P = λ s. Unit} test set Moves-refl
          (λ s p h. moves s) db.swaps (All-rows db.swaps));
  }

  pub set_refund_address-Sound :
      (id address : String) → Sound (set_send_swap_refund_address table id address)
  unfolding set_send_swap_refund_address
  set_refund_address-Sound id address =
      update-Sound (set_send_swap_refund_address table id address) (has_id id)
        (λ s. record s { refund_address = some address }) (λ db. refl)
        (λ s. aside-Moves s _ refl refl refl refl)

  pub set_lockup-Sound : (id tx_id : String) → Sound (set_send_swap_lockup_tx_id table id tx_id)
  unfolding set_send_swap_lockup_tx_id
  set_lockup-Sound id tx_id =
      update-Sound (set_send_swap_lockup_tx_id table id tx_id) (unlocked id)
        (λ s. record s { lockup_tx_id = some tx_id }) (λ db. refl)
        (λ s. aside-Moves s _ refl refl refl refl)

  pub unset_lockup-Sound : (id tx_id : String) → Sound (unset_send_swap_lockup_tx_id table id tx_id)
  unfolding unset_send_swap_lockup_tx_id
  unset_lockup-Sound id tx_id =
      update-Sound (unset_send_swap_lockup_tx_id table id tx_id) (locked_by id tx_id)
        (λ s. record s { lockup_tx_id = none }) (λ db. refl)
        (λ s. aside-Moves s _ refl refl refl refl)
