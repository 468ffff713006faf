-- ===== src/Chain/Handler/Blocks.antt =====
-- lib/core/src/chain_swap.rs: what the handler does at each new block of the two chains.
use breez_sdk_liquid.Base.{
  ℕ, String, Bool, ◌&&◌, Option, some, none, List, [], ◌∷◌, is_none, filter, find,
}
use breez_sdk_liquid.Base.Int.{ℤ, pos, ltb_ℤ}
use breez_sdk_liquid.Base.Text.{str_eq}
use breez_sdk_liquid.Base.Result.{ok_or}
use breez_sdk_liquid.Base.Exec.{done, attempt, gets, when, ◌>>=◌}
use breez_sdk_liquid.Model.{ChainSwap, Direction, incoming, outgoing, state_eq, pending}
use breez_sdk_liquid.Model.Equality.{direction_eq}
use breez_sdk_liquid.Model.Errors.{anyhow}
use breez_sdk_liquid.Chain.Store.{Db, Action}
use breez_sdk_liquid.Chain.Handler.{Services, from_any, claim}
use breez_sdk_liquid.Chain.Handler.Check.{fetch_script_history}
use breez_sdk_liquid.Chain.Handler.Refund.{refund_outgoing}

module _ (services : Services) where
  -- Nothing is looked for while the swap has no lockup of the server.
  unfoldable pub claim_confirmed_server_lockup : ChainSwap → Option String → Action (Unit {0})
  claim_confirmed_server_lockup swap none = done tt
  claim_confirmed_server_lockup swap (some tx_id) = do
    swap_script ← from_any (services.get_claim_swap_script swap)
    script_history ← from_any (fetch_script_history services swap_script)
    found ← from_any (ok_or (find (λ (h : String × ℤ). str_eq h.0 tx_id) script_history) anyhow)
    when (ltb_ℤ (pos 0) found.1) (claim services swap.id)

  -- Errors are logged, and the next swap is tried.
  unfoldable pub claim_all : List ChainSwap → Action (Unit {0})
  claim_all [] = done tt
  claim_all (swap ∷ swaps) = do
    result ← attempt (claim_confirmed_server_lockup swap swap.server_lockup_tx_id)
    claim_all swaps

  abbrev pub awaits_claim : Direction → ChainSwap → Bool
  awaits_claim direction s =
      direction_eq s.direction direction && (state_eq s.state pending && is_none s.claim_tx_id)

  unfoldable pub claim_pending : Direction → Action (Unit {0})
  claim_pending direction = do
    swaps ← gets (λ (db : Db). filter (awaits_claim direction) db.swaps)
    claim_all swaps

  unfoldable pub on_bitcoin_block : ℕ → Action (Unit {0})
  on_bitcoin_block height = do result ← attempt (claim_pending outgoing); done tt

  unfoldable pub on_liquid_block : ℕ → Action (Unit {0})
  on_liquid_block height = do
    refunded ← attempt (refund_outgoing services height)
    claimed ← attempt (claim_pending incoming)
    done tt
