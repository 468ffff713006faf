-- ===== src/Recover/Receive/Onchain.antt =====
-- The magic-routing-hint (MRH) payment that a receive swap is given.
use breez_sdk_liquid.Base.{
  and_then-some, ℕ, ◌≤◌, String, Bool, true, false, Option, some, none, List, [], ◌∷◌, ◌≡◌, ◌⊎◌,
  inl, inr, arith, All, if◌then◌else◌, Bool-cases, Option-cases,
}
use breez_sdk_liquid.Base.Text.{str_eq}
use breez_sdk_liquid.Base.Result.{Result-cases}
use breez_sdk_liquid.Model.{History, ReceiveSwap}
use breez_sdk_liquid.Recover.{WalletTx, TxMap, get}
use breez_sdk_liquid.Recover.Receive.{
  RecoveredOnchainDataReceive, ReceiveSwapHistory, ReceiveContext, asset_amount, pays_enough,
  mrh_txs, recover_onchain_data, update_swap, recover_swap, choose,
}

abbrev Passes : (WalletTx → Bool) → String × WalletTx → Type 0
Passes test (k, tx) = test tx ≡ true

collect-Passes :
    (test : WalletTx → Bool) (o : Option WalletTx) (collected : List (String × WalletTx))
    → All (Passes test) collected
    → All (Passes test) (elim o [
      | none ↦ collected
      | some tx ↦ if test tx then (tx.txid, tx) ∷ collected else collected
    ])
collect-Passes test none collected h = h
collect-Passes test (some tx) collected h = elim (Bool-cases (test tx)) [
  | inl passed ↦ rw passed (passed, h)
  | inr failed ↦ rw failed h
]

-- Every transaction that is collected passes the test.
mrh_txs-Passes :
    (test : WalletTx → Bool) (tx_map : TxMap) (history : List History)
    (collected : List (String × WalletTx))
    → All (Passes test) collected
    → All (Passes test) (mrh_txs test tx_map history collected)
unfolding mrh_txs
mrh_txs-Passes test tx_map [] collected h = h
mrh_txs-Passes test tx_map (x ∷ history) collected h =
    mrh_txs-Passes test tx_map history _
      (collect-Passes test (get x.txid tx_map.incoming_tx_map) collected h)

if_some :
    {A : Type 0} (b : Bool) (v : A) (o : Option A) {t : A}
    → (if b then some v else o) ≡ some t
    → (v ≡ t) ⊎ (o ≡ some t)
if_some true v o h = inl (cc)
if_some false v o h = inr h

get-Passes :
    (test : WalletTx → Bool) (k : String) (m : List (String × WalletTx)) {tx : WalletTx}
    → All (Passes test) m
    → get k m ≡ some tx
    → test tx ≡ true
get-Passes test k [] h e = cc
get-Passes test k ((j, v) ∷ m) h e = elim (if_some (str_eq j k) v (get k m) e) [
  | inl same ↦ rw (← same) h.0
  | inr later ↦ get-Passes test k m h.1 later
]

pays_enough-le :
    (t a : ℕ) (asset : String) (tx : WalletTx) {b : ℕ}
    → pays_enough t a asset tx ≡ true
    → asset_amount asset tx ≡ some b
    → a ≤ b
pays_enough-le t a asset tx h e = ground arith

choose-amount :
    (lockup claim mrh : Option History) (amount : Option ℕ) {a : ℕ}
    → (choose lockup claim mrh amount).mrh_amount_sat ≡ some a
    → amount ≡ some a
unfolding choose
choose-amount (some l) claim mrh amount h = cc
choose-amount none claim mrh amount h = h

module _ (tx_map : TxMap) (history : ReceiveSwapHistory) (created_at : ℕ) (asset : String) where
  -- The amount of an MRH payment that is recovered is at least the receiver amount.
  pub receive_mrh_pays_enough :
      (receiver_amount_sat : ℕ) {amount : ℕ}
      → (recover_onchain_data tx_map history created_at receiver_amount_sat asset).mrh_amount_sat
        ≡ some amount
      → receiver_amount_sat ≤ amount
  unfolding recover_onchain_data
  receive_mrh_pays_enough least h =
      let test = pays_enough created_at least asset in
      let txs = mrh_txs test tx_map history.lbtc_mrh_script_history [] in
      let (tx, found, amount) = and_then-some _ (asset_amount asset) (choose-amount _ _ _ _ h) in
      let (entry, _, got) = and_then-some _ (λ (x : History). get x.txid txs) found in
      pays_enough-le created_at least asset tx
        (get-Passes test entry.txid txs
          (mrh_txs-Passes test tx_map history.lbtc_mrh_script_history [] tt) got)
        amount

update_swap-amount :
    (s : ReceiveSwap) (d : RecoveredOnchainDataReceive) (height : ℕ) (g : Bool)
    → ((a : ℕ) → d.mrh_amount_sat ≡ some a → s.receiver_amount_sat ≤ a)
    → s.receiver_amount_sat ≤ (update_swap s d height g).0.receiver_amount_sat
unfolding update_swap
update_swap-amount s d height g enough = elim (Option-cases (d.mrh_amount_sat)) [
  | inl e ↦ ground arith
  | inr (a, e) ↦ ground (arith, enough a)
]

-- Recovery never lowers the amount that a receive swap is to receive.
pub recover_swap-amount :
    (c : ReceiveContext) (s : ReceiveSwap) (is_within_grace_period : Bool)
    → s.receiver_amount_sat ≤ (recover_swap c s is_within_grace_period).0.receiver_amount_sat
unfolding recover_swap
recover_swap-amount c s g = elim (Result-cases (c.claim_script s)) [
  | inl (e, failed) ↦ rw (failed, recover_swap) (omega arith)
  | inr (script, found) ↦
      rw (found, recover_swap)
        (update_swap-amount s _ c.liquid_tip_height g (λ a h.
          receive_mrh_pays_enough c.tx_map _ s.created_at c.lbtc_asset_id s.receiver_amount_sat h))
]
