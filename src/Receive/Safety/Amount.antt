-- ===== src/Receive/Safety/Amount.antt =====
-- A lockup that passes the handler's check pays what the user is owed, with the claim fees.
use breez_sdk_liquid.Base.{
  not-ltb-le, ℕ, String, true, not, Option, some, none, ◌≡◌, ◌≤◌, ◌<◌, ◌+◌, ◌↔◌, refl, arith, find,
  ltb, u64_mod, add_u64,
}
use breez_sdk_liquid.Base.Text.{str_eq}
use breez_sdk_liquid.Base.Result.{ok, ok_or, ensure-eq-ok, >>=-eq-ok}
use breez_sdk_liquid.Model.{ReceiveSwap}
use breez_sdk_liquid.Model.Errors.{anyhow}
use breez_sdk_liquid.Chain.Handler.{LiquidTxOut, Script}
use breez_sdk_liquid.Receive.Handler.{Services, LockupTx}
use breez_sdk_liquid.Receive.Handler.Lockup.{expected_lockup_amount, verify_lockup_tx_amount}

ok_or-eq-ok : {A : Type 0} (o : Option A) {x : A} → ok_or o anyhow ≡ ok x → o ≡ some x
ok_or-eq-ok (some a) h = cc
ok_or-eq-ok none h = cc

le-not-ltb : (a b : ℕ) → b ≤ a → not (ltb a b) ≡ true
le-not-ltb a b h = ground arith

expected-exact :
    (swap : ReceiveSwap)
    → swap.receiver_amount_sat + swap.claim_fees_sat < u64_mod
    → expected_lockup_amount swap ≡ swap.receiver_amount_sat + swap.claim_fees_sat
unfolding expected_lockup_amount add_u64
expected-exact swap fits = ground arith

module _ (services : Services) (swap : ReceiveSwap) (tx : LockupTx) where
  -- The first output to the swap's script can be seen with the swap's key, and its value is the
  -- user's amount with the claim fees at least.
  abbrev pub PaysEnough : Type 0
  PaysEnough =
      (script : Script) × (address key : String) × (out : LiquidTxOut) × (value : ℕ)
      × (services.get_swap_script swap ≡ ok script)
      × (script.script_pubkey ≡ ok address)
      × (services.get_blinding_key swap ≡ ok (some key))
      × (find (λ (o : LiquidTxOut). str_eq o.script_pubkey address) tx.output ≡ some out)
      × (out.unblind key ≡ ok value)
      × (swap.receiver_amount_sat + swap.claim_fees_sat ≤ value)

  verified-PaysEnough :
      swap.receiver_amount_sat + swap.claim_fees_sat < u64_mod
      → verify_lockup_tx_amount services swap tx ≡ ok tt
      → PaysEnough
  unfolding verify_lockup_tx_amount
  verified-PaysEnough fits h =
      let (script, e1, h1) = >>=-eq-ok (services.get_swap_script swap) _ h in
      let (address, e2, h2) = >>=-eq-ok script.script_pubkey _ h1 in
      let (known, e3, h3) = >>=-eq-ok (services.get_blinding_key swap) _ h2 in
      let (key, e4, h4) = >>=-eq-ok (ok_or known anyhow) _ h3 in
      let (out, e5, h5) =
        >>=-eq-ok
          (ok_or (find (λ (o : LiquidTxOut). str_eq o.script_pubkey address) tx.output) anyhow) _
          h4 in
      let (value, e6, h6) = >>=-eq-ok (out.unblind key) _ h5 in
      let enough = not-ltb-le value _ (ensure-eq-ok _ _ h6) in
      let exact = expected-exact swap fits in
      (
        script,
        address,
        key,
        out,
        value,
        e1,
        e2,
        rw (← ok_or-eq-ok known e4) e3,
        ok_or-eq-ok _ e5,
        e6,
        omega (arith, enough, exact),
      )

  PaysEnough-verified :
      swap.receiver_amount_sat + swap.claim_fees_sat < u64_mod
      → PaysEnough
      → verify_lockup_tx_amount services swap tx ≡ ok tt
  unfolding verify_lockup_tx_amount
  PaysEnough-verified fits (script, address, key, out, value, e1, e2, e3, e4, e5, enough) =
      let good : not (ltb value (expected_lockup_amount swap)) ≡ true =
        le-not-ltb value _ (rw (expected-exact swap fits) enough) in
      rw (e1, e2, e3, e4, e5, good) refl

  -- The check of a lockup's amount passes exactly if the first output to the swap's script, as it is
  -- seen with the swap's key, has the user's amount with the claim fees at least, where that sum
  -- fits into 64 bits.
  pub verify_lockup_amount_iff :
      swap.receiver_amount_sat + swap.claim_fees_sat < u64_mod
      → (verify_lockup_tx_amount services swap tx ≡ ok tt) ↔ PaysEnough
  verify_lockup_amount_iff fits = (verified-PaysEnough fits, PaysEnough-verified fits)
