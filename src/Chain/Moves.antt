-- ===== src/Chain/Moves.antt =====
-- What the handler of chain swaps may do to the rows of the table.
pub mod Store
pub mod Handler
pub mod Claim
pub mod Refund
pub mod Verify
pub mod Status
use breez_sdk_liquid.Base.{ℕ, String, true, Option, some, none, ◌≡◌, refl, or_else, is_some}
use breez_sdk_liquid.Model.{ChainSwap, PaymentState}
use breez_sdk_liquid.Persist.{Table}
use breez_sdk_liquid.Persist.Sound.{Motion}
use breez_sdk_liquid.Chain.Store.{ChainSwapUpdate, schema, set_update, touch}
use breez_sdk_liquid.Chain.Transition.Graph.{◌⟶◌, ◌⟶*◌, here, then}

-- The state moves along the life cycle; the agreed amounts stay, and so does a lockup of either
-- side once it is known; a refund may be replaced by another one, but is not forgotten.
pub record Moves (s t : ChainSwap) : Type 0 where
  pub same_id : s.id ≡ t.id
  pub same_direction : s.direction ≡ t.direction
  pub same_payer_amount : s.payer_amount_sat ≡ t.payer_amount_sat
  pub same_receiver_amount : s.receiver_amount_sat ≡ t.receiver_amount_sat
  pub moved : s.state ⟶* t.state
  pub keeps_user_lockup :
      (tx : String) → s.user_lockup_tx_id ≡ some tx → t.user_lockup_tx_id ≡ some tx
  pub keeps_server_lockup :
      (tx : String) → s.server_lockup_tx_id ≡ some tx → t.server_lockup_tx_id ≡ some tx
  pub keeps_refunded : is_some s.refund_tx_id ≡ true → is_some t.refund_tx_id ≡ true

moves_trans : {s t u : PaymentState} → s ⟶* t → t ⟶* u → s ⟶* u
moves_trans r here = r
moves_trans r (then q e) = then (moves_trans r q) e

-- A change of what `Moves` does not speak of.
pub aside-Moves :
    (s t : ChainSwap)
    → s.id ≡ t.id
    → s.direction ≡ t.direction
    → s.payer_amount_sat ≡ t.payer_amount_sat
    → s.receiver_amount_sat ≡ t.receiver_amount_sat
    → s.state ≡ t.state
    → s.user_lockup_tx_id ≡ t.user_lockup_tx_id
    → s.server_lockup_tx_id ≡ t.server_lockup_tx_id
    → s.refund_tx_id ≡ t.refund_tx_id
    → Moves s t
aside-Moves s t i d p r st u v f = record {
  same_id = i;
  same_direction = d;
  same_payer_amount = p;
  same_receiver_amount = r;
  moved = rw (← st) here;
  keeps_user_lockup = λ tx h. cc;
  keeps_server_lockup = λ tx h. cc;
  keeps_refunded = λ h. rw (← f) h;
}

pub Moves-trans : (s t u : ChainSwap) → Moves s t → Moves t u → Moves s u
Moves-trans s t u m n = record {
  same_id = cc;
  same_direction = cc;
  same_payer_amount = cc;
  same_receiver_amount = cc;
  moved = moves_trans m.moved n.moved;
  keeps_user_lockup = λ tx h. n.keeps_user_lockup tx (m.keeps_user_lockup tx h);
  keeps_server_lockup = λ tx h. n.keeps_server_lockup tx (m.keeps_server_lockup tx h);
  keeps_refunded = λ h. n.keeps_refunded (m.keeps_refunded h);
}

pub Moves-refl : (s : ChainSwap) → Moves s s
Moves-refl s = aside-Moves s s refl refl refl refl refl refl refl refl

pub motion : (table : Table) → Motion (schema table) Moves
motion table = record { same = Moves-refl; compose = Moves-trans; keeps_id = λ s t m. m.same_id }

or_else-is_some : (a b : Option String) → is_some b ≡ true → is_some (or_else a b) ≡ true
or_else-is_some none b h = h
or_else-is_some (some a) b h = refl

-- An update along an edge of the life cycle.
pub set_update-Moves :
    (table : Table) (u : ChainSwapUpdate) (s : ChainSwap)
    → s.state ⟶ u.to_state
    → Moves s (touch table (set_update u s))
set_update-Moves table u s edge = record {
  same_id = refl;
  same_direction = refl;
  same_payer_amount = refl;
  same_receiver_amount = refl;
  moved = then here edge;
  keeps_user_lockup = λ tx h. rw h;
  keeps_server_lockup = λ tx h. rw h;
  keeps_refunded = or_else-is_some u.refund_tx_id s.refund_tx_id;
}
