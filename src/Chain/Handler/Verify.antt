-- ===== src/Chain/Handler/Verify.antt =====
-- lib/core/src/chain_swap.rs: the user's lockup verified before a claim, and recorded where the swap
-- does not know it yet.
use breez_sdk_liquid.Base.{
  ℕ, String, Bool, true, false, not, ◌&&◌, Option, some, none, List, [], ◌∷◌, ◌==◌, ltb, any,
}
use breez_sdk_liquid.Base.Int.{ℤ}
use breez_sdk_liquid.Base.Text.{str_eq}
use breez_sdk_liquid.Base.Exec.{done, guard, ◌>>=◌, ◌>>◌}
use breez_sdk_liquid.Model.{ChainSwap, Direction, incoming, outgoing, pending}
use breez_sdk_liquid.Model.Errors.{generic}
use breez_sdk_liquid.Chain.Store.{Action, to_state_only, update_actual_payer_amount}
use breez_sdk_liquid.Chain.Handler.{Services, from_any, update_swap_info}
use breez_sdk_liquid.Chain.Handler.Check.{
  fetch_script_history, fetch_incoming_swap_actual_payer_amount,
}

module _ (services : Services) where
  -- A lockup that the swap does not know yet is taken from the history.
  unfoldable pub known_lockup : ChainSwap → List (String × ℤ) → Option String → Action Bool
  known_lockup swap history (some user_lockup_tx_id) =
      done (any (λ (h : String × ℤ). str_eq h.0 user_lockup_tx_id) history)
  known_lockup swap [] none = done false
  known_lockup swap (h ∷ history) none = do
    update_swap_info services
        (record (to_state_only swap.id pending) { user_lockup_tx_id = some h.0 })
    done true

  unfoldable pub user_lockup_tx_exists : ChainSwap → Action Bool
  user_lockup_tx_exists swap = do
    lockup_script ← from_any (services.get_lockup_swap_script swap)
    script_history ← from_any (fetch_script_history services lockup_script)
    known_lockup swap script_history swap.user_lockup_tx_id

  unfoldable pub actual_payer_amount : ChainSwap → Option ℕ → Action ℕ
  actual_payer_amount swap (some amount) = done amount
  actual_payer_amount swap none = do
    amount ← from_any (fetch_incoming_swap_actual_payer_amount services swap)
    update_actual_payer_amount services.table swap.id amount
    done amount

  unfoldable pub verify_payer_amount : ChainSwap → Direction → Action (Unit {0})
  verify_payer_amount swap outgoing = done tt
  verify_payer_amount swap incoming = do
    actual ← actual_payer_amount swap swap.actual_payer_amount_sat
    guard (not (ltb 0 swap.payer_amount_sat && not (swap.payer_amount_sat == actual))) generic

  unfoldable pub verify_user_lockup_tx : ChainSwap → Action (Unit {0})
  verify_user_lockup_tx swap = do
    exists ← user_lockup_tx_exists swap
    guard exists generic
    verify_payer_amount swap swap.direction
