-- ===== src/Chain/Safety/Lockup.antt =====
-- A lockup of the server that is verified pays what was accepted or agreed: a sum that wraps around
-- at 64 bits can not stand for a payment.
use breez_sdk_liquid.Base.{
  not-ltb-le, ℕ, ◌+◌, ◌≤◌, ◌<◌, String, Bool, true, false, not, some, none, List, [], ◌∷◌, ◌≡◌, inl,
  inr, arith, any, u64_mod, add_u64, Bool-cases, if◌then◌else◌, ◌&&◌, unwrap_or,
}
use breez_sdk_liquid.Base.Text.{str_eq}
use breez_sdk_liquid.Base.Result.{Result, ok, err, ok_or, ensure, ensure-eq-ok, >>=-eq-ok}
use breez_sdk_liquid.Model.{ChainSwap, Direction, incoming, outgoing}
use breez_sdk_liquid.Model.Errors.{AnyError, anyhow}
use breez_sdk_liquid.Recover.Btc.{TxOut}
use breez_sdk_liquid.Chain.Handler.{
  LiquidTxOut, VerifiedTx, Script, SwapScriptV2, liquid_script, bitcoin_script, CreateChainResponse,
  Services, as_liquid_script, as_bitcoin_script,
}
use breez_sdk_liquid.Chain.Handler.Check.{
  TransactionInfo, unblinded_value, output_value, expected_incoming, rbf_refused,
  verify_incoming_server_lockup_tx, verify_outgoing_server_lockup_tx, verify_server_lockup_by,
  verify_server_lockup_tx,
}

-- What the wallet sees of an output, or nothing if it can not.
abbrev seen : Result AnyError ℕ → ℕ
seen (ok sats) = sats
seen (err failure) = 0

-- What pays to the script, with no limit.
abbrev pub paid_liquid : String → String → List LiquidTxOut → ℕ
paid_liquid key script [] = 0
paid_liquid key script (out ∷ outs) =
    (if str_eq out.script_pubkey script then seen (out.unblind key) else 0)
    + paid_liquid key script outs

abbrev pub paid_bitcoin : String → List TxOut → ℕ
paid_bitcoin script [] = 0
paid_bitcoin script (out ∷ outs) =
    (if str_eq out.script_pubkey script then out.value else 0) + paid_bitcoin script outs

unblinded-le-paid :
    (key script : String) (outs : List LiquidTxOut) (value : ℕ) {total : ℕ}
    → unblinded_value key script outs value ≡ ok total
    → total ≤ value + paid_liquid key script outs
unfolding unblinded_value add_u64
unblinded-le-paid key script [] value e = ground arith
unblinded-le-paid key script (out ∷ outs) value {total} e =
    elim (Bool-cases (str_eq out.script_pubkey script)) [
      | inr other ↦
          let bound =
            unblinded-le-paid key script outs value {total = total}
              (rw (other, unblinded_value) at e) in
          rw other (omega (arith, bound))
      | inl ours ↦
          let (sats, visible, rest) =
            >>=-eq-ok (out.unblind key) _ (rw (ours, unblinded_value) at e) in
          let bound = unblinded-le-paid key script outs (add_u64 value sats) {total = total} rest in
          rw (ours, visible) (omega (arith, bound))
    ]

output-le-paid :
    (script : String) (outs : List TxOut) → output_value script outs ≤ paid_bitcoin script outs
unfolding output_value add_u64
output-le-paid script [] = omega arith
output-le-paid script (out ∷ outs) = ground (arith, output-le-paid script outs)

-- What the server owes an incoming swap, with no limit.
abbrev pub owed : ChainSwap → ℕ → ℕ
owed swap claim_amount = elim (swap.accepted_receiver_amount_sat) [
  | none ↦ claim_amount
  | some accepted ↦ accepted + swap.claim_fees_sat
]

owed-expected :
    (swap : ChainSwap) (claim_amount : ℕ)
    → unwrap_or swap.accepted_receiver_amount_sat 0 + swap.claim_fees_sat < u64_mod
    → expected_incoming swap claim_amount ≡ owed swap claim_amount
unfolding expected_incoming add_u64
owed-expected swap claim_amount fits = ground arith

as_liquid-eq :
    (script : SwapScriptV2) {s : Script} → as_liquid_script script ≡ ok s → script ≡ liquid_script s
as_liquid-eq (liquid_script s) e = cc
as_liquid-eq (bitcoin_script s) e = cc

as_bitcoin-eq :
    (script : SwapScriptV2) {s : Script}
    → as_bitcoin_script script ≡ ok s
    → script ≡ bitcoin_script s
as_bitcoin-eq (liquid_script s) e = cc
as_bitcoin-eq (bitcoin_script s) e = cc

not_replaceable :
    (confirmed rbf : Bool) → not (not confirmed && rbf) ≡ true → confirmed ≡ false → rbf ≡ false
not_replaceable confirmed rbf h e = ground arith

module _ (services : Services) (swap : ChainSwap) (t : TransactionInfo) (confirmed : Bool) where
  -- The chain service knows the transaction that pays the claim script, it can not be replaced
  -- unless it is confirmed, and the outputs to the script pay enough.
  abbrev pub PaidOnLiquid : Type 0
  PaidOnLiquid =
      (script : Script) × (response : CreateChainResponse) × (address hex : String)
      × (tx : VerifiedTx LiquidTxOut) × (services.get_claim_swap_script swap
          ≡ ok (liquid_script script))
      × (services.get_boltz_create_response swap ≡ ok response)
      × (services.liquid_verify_tx address t.id hex confirmed ≡ ok tx)
      × (confirmed ≡ false → any (λ (rbf : Bool). rbf) tx.input_is_rbf ≡ false)
      × (owed swap response.claim_amount ≤ paid_liquid script.blinding_key address tx.output)

  abbrev pub PaidOnBitcoin : Type 0
  PaidOnBitcoin =
      (script : Script) × (response : CreateChainResponse) × (address hex : String)
      × (tx : VerifiedTx TxOut) × (services.get_claim_swap_script swap ≡ ok (bitcoin_script script))
      × (services.get_boltz_create_response swap ≡ ok response)
      × (services.bitcoin_verify_tx address t.id hex confirmed ≡ ok tx)
      × (confirmed ≡ false → any (λ (rbf : Bool). rbf) tx.input_is_rbf ≡ false)
      × (response.claim_amount ≤ paid_bitcoin address tx.output)

  incoming_paid :
      {u : Unit {0}}
      → unwrap_or swap.accepted_receiver_amount_sat 0 + swap.claim_fees_sat < u64_mod
      → verify_incoming_server_lockup_tx services swap t confirmed ≡ ok u
      → PaidOnLiquid
  unfolding verify_incoming_server_lockup_tx
  incoming_paid fits h =
      let (swap_script, e1, h1) = >>=-eq-ok (services.get_claim_swap_script swap) _ h in
      let (response, e2, h2) = >>=-eq-ok (services.get_boltz_create_response swap) _ h1 in
      let (script, e3, h3) = >>=-eq-ok (as_liquid_script swap_script) _ h2 in
      let (address, e4, h4) = >>=-eq-ok script.script_pubkey _ h3 in
      let (hex, e5, h5) = >>=-eq-ok (ok_or t.hex anyhow) _ h4 in
      let (tx, e6, h6) = >>=-eq-ok (services.liquid_verify_tx address t.id hex confirmed) _ h5 in
      let (_, e7, h7) = >>=-eq-ok (ensure (not (rbf_refused confirmed tx)) anyhow) _ h6 in
      let (value, e8, h8) =
        >>=-eq-ok (unblinded_value script.blinding_key address tx.output 0) _ h7 in
      let enough = not-ltb-le value _ (ensure-eq-ok _ _ h8) in
      let seen_all = unblinded-le-paid script.blinding_key address tx.output 0 {total = value} e8 in
      let exact = owed-expected swap response.claim_amount fits in
      (
        script,
        response,
        address,
        hex,
        tx,
        rw (← as_liquid-eq swap_script e3) e1,
        e2,
        e6,
        not_replaceable confirmed _ (ensure-eq-ok _ _ e7),
        omega (arith, enough, seen_all, exact),
      )

  outgoing_paid :
      {u : Unit {0}}
      → verify_outgoing_server_lockup_tx services swap t confirmed ≡ ok u
      → PaidOnBitcoin
  unfolding verify_outgoing_server_lockup_tx
  outgoing_paid h =
      let (swap_script, e1, h1) = >>=-eq-ok (services.get_claim_swap_script swap) _ h in
      let (response, e2, h2) = >>=-eq-ok (services.get_boltz_create_response swap) _ h1 in
      let (script, e3, h3) = >>=-eq-ok (as_bitcoin_script swap_script) _ h2 in
      let (address, e4, h4) = >>=-eq-ok script.script_pubkey _ h3 in
      let (hex, e5, h5) = >>=-eq-ok (ok_or t.hex anyhow) _ h4 in
      let (tx, e6, h6) = >>=-eq-ok (services.bitcoin_verify_tx address t.id hex confirmed) _ h5 in
      let (_, e7, h7) = >>=-eq-ok (ensure (not (rbf_refused confirmed tx)) anyhow) _ h6 in
      let enough = not-ltb-le _ _ (ensure-eq-ok _ _ h7) in
      (
        script,
        response,
        address,
        hex,
        tx,
        rw (← as_bitcoin-eq swap_script e3) e1,
        e2,
        e6,
        not_replaceable confirmed _ (ensure-eq-ok _ _ e7),
        omega (arith, enough, output-le-paid address tx.output),
      )

  abbrev pub Paid : Direction → Type 0
  Paid incoming = PaidOnLiquid
  Paid outgoing = PaidOnBitcoin

  by_direction :
      (direction : Direction) {u : Unit {0}}
      → unwrap_or swap.accepted_receiver_amount_sat 0 + swap.claim_fees_sat < u64_mod
      → verify_server_lockup_by services direction swap t confirmed ≡ ok u
      → Paid direction
  unfolding verify_server_lockup_by
  by_direction incoming fits h = incoming_paid fits h
  by_direction outgoing fits h = outgoing_paid h

  -- A lockup of the server that passes the check is known to the chain service, can not be replaced
  -- unless it is confirmed, and its outputs to the claim script pay what is owed: the accepted
  -- amount with the claim fees, or the amount of the create response. The sums are exact, though the
  -- code adds up 64-bit words; the accepted amount with the claim fees must fit into 64 bits.
  pub verify_server_lockup-Paid :
      {u : Unit {0}}
      → unwrap_or swap.accepted_receiver_amount_sat 0 + swap.claim_fees_sat < u64_mod
      → verify_server_lockup_tx services swap t confirmed ≡ ok u
      → Paid swap.direction
  verify_server_lockup-Paid fits h = by_direction swap.direction fits h
