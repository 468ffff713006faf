-- ===== src/Chain/Safety/User.antt =====
-- What the verification of the user's lockup keeps: whatever the update that records this lockup, and
-- the one of the amount, keep.
use breez_sdk_liquid.Base.{ℕ, String, Option, some, none, List, [], ◌∷◌, ◌≡◌}
use breez_sdk_liquid.Base.Int.{ℤ}
use breez_sdk_liquid.Base.Exec.Keeps.{Keeps, keeps_rules}
use breez_sdk_liquid.Model.{ChainSwap, Direction, incoming, outgoing}
use breez_sdk_liquid.Chain.Store.{Db, ChainSwapUpdate, update_actual_payer_amount}
use breez_sdk_liquid.Chain.Handler.{Services, update_swap_info}
use breez_sdk_liquid.Chain.Handler.Verify.{
  known_lockup, user_lockup_tx_exists, actual_payer_amount, verify_payer_amount,
  verify_user_lockup_tx,
}

module _ (services : Services) {V : Type 0} (part : Db → V)
    (update : (u : ChainSwapUpdate)
      → u.server_lockup_tx_id ≡ none
      → Keeps part (update_swap_info services u))
    (payer : (id : String) (amount : ℕ)
      → Keeps part (update_actual_payer_amount services.table id amount)) where
  known_lockup-Keeps :
      (swap : ChainSwap) (history : List (String × ℤ)) (lockup : Option String)
      → Keeps part (known_lockup services swap history lockup)
  unfolding known_lockup
  known_lockup-Keeps swap history (some lockup) = search keeps_rules
  known_lockup-Keeps swap [] none = search keeps_rules
  known_lockup-Keeps swap (h ∷ history) none = search keeps_rules

  exists-Keeps : (swap : ChainSwap) → Keeps part (user_lockup_tx_exists services swap)
  unfolding user_lockup_tx_exists
  exists-Keeps swap = search (keeps_rules, known_lockup-Keeps) depth 20

  actual-Keeps :
      (swap : ChainSwap) (amount : Option ℕ) → Keeps part (actual_payer_amount services swap amount)
  unfolding actual_payer_amount
  actual-Keeps swap (some amount) = search keeps_rules
  actual-Keeps swap none = search keeps_rules

  payer-Keeps :
      (swap : ChainSwap) (direction : Direction)
      → Keeps part (verify_payer_amount services swap direction)
  unfolding verify_payer_amount
  payer-Keeps swap outgoing = search keeps_rules
  payer-Keeps swap incoming = search (keeps_rules, actual-Keeps) depth 20

  pub verify_user-Keeps : (swap : ChainSwap) → Keeps part (verify_user_lockup_tx services swap)
  unfolding verify_user_lockup_tx
  verify_user-Keeps swap = search (keeps_rules, exists-Keeps, payer-Keeps) depth 20
