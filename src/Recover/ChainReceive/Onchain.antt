-- ===== src/Recover/ChainReceive/Onchain.antt =====
-- Which transaction an incoming chain swap takes for its refund.
use mathlib.Core.List.{Memᴰ}
use mathlib.Core.Path.{subst}
use breez_sdk_liquid.Base.{
  ℕ, ◌<◌, String, Bool, true, false, not, Option, some, none, List, [], ◌∷◌, ◌≡◌, refl, ◌⊎◌, inl,
  arith, length, or_else, find_sound, find_last, last?, filter, if◌then◌else◌, sym,
}
use breez_sdk_liquid.Base.Text.{str_eq}
use breez_sdk_liquid.Model.{History}
use breez_sdk_liquid.Recover.{TxMap}
use breez_sdk_liquid.Recover.Btc.{BtcTx, pays_to}
use breez_sdk_liquid.Recover.ChainReceive.{
  ReceiveChainSwapHistory, history_entry, history_entries, refund_tx, recover_onchain_data,
}

tail_or_head :
    {A : Type 0} (y : A) (ys : List A) (o alternative : Option A) {x : A}
    → ((z : A) → o ≡ some z → Memᴰ z ys)
    → ((z : A) → alternative ≡ some z → z ≡ y)
    → elim o [ some w ↦ some w | none ↦ alternative ] ≡ some x
    → Memᴰ x (y ∷ ys)
tail_or_head y ys (some w) alternative {x} in_tail at_head h = Memᴰ.tail (in_tail x h)
tail_or_head y ys none alternative {x} in_tail at_head h = Memᴰ.head (at_head x h)

if_some-eq : {A : Type 0} (b : Bool) (y z : A) → (if b then some y else none) ≡ some z → z ≡ y
if_some-eq true y z h = cc
if_some-eq false y z h = cc

find_last-mem :
    {A : Type 0} (p : A → Bool) (xs : List A) {x : A} → find_last p xs ≡ some x → Memᴰ x xs
find_last-mem p [] h = cc
find_last-mem p (y ∷ ys) h =
    tail_or_head y ys (find_last p ys) (if p y then some y else none)
      (λ z e. find_last-mem p ys {x = z} e) (if_some-eq (p y) y) h

last?-mem : {A : Type 0} (xs : List A) {x : A} → last? xs ≡ some x → Memᴰ x xs
last?-mem [] h = cc
last?-mem (y ∷ ys) h =
    tail_or_head y ys (last? ys) (some y) (λ z e. last?-mem ys {x = z} e) (λ z e. cc) h

entry-mem :
    (history : List History) (o : Option History) (rest : List History) {h : History}
    → ((z : History) → o ≡ some z → Memᴰ z history)
    → (Memᴰ h rest → Memᴰ h history)
    → Memᴰ h (elim o [ some z ↦ z ∷ rest | none ↦ rest ])
    → Memᴰ h history
entry-mem history none rest found later m = later m
entry-mem history (some z) rest found later (Memᴰ.head e) =
    subst (λ t. Memᴰ t history) (sym e) (found z refl)
entry-mem history (some z) rest found later (Memᴰ.tail m) = later m

history_entries-mem :
    (history : List History) (txs : List BtcTx) {h : History}
    → Memᴰ h (history_entries history txs)
    → Memᴰ h history
history_entries-mem history [] m = elim m [ ]
history_entries-mem history (tx ∷ txs) m =
    entry-mem history (history_entry history tx) (history_entries history txs)
      (λ z e. (find_sound (λ (x : History). str_eq x.txid tx.txid) history e).0)
      (history_entries-mem history txs) m

or_else-mem :
    {A : Type 0} {xs : List A} (o alternative : Option A) {x : A}
    → ((z : A) → o ≡ some z → Memᴰ z xs)
    → ((z : A) → alternative ≡ some z → Memᴰ z xs)
    → or_else o alternative ≡ some x
    → Memᴰ x xs
or_else-mem (some w) alternative {x} first second h = first x h
or_else-mem none alternative {x} first second h = second x h

refund_tx-some :
    (claim : Option History) (count : ℕ) (last : Option History) {h : History}
    → refund_tx claim count last ≡ some h
    → (last ≡ some h) × ((claim ≡ none) ⊎ (1 < count))
unfolding refund_tx
refund_tx-some none count last h = (h, inl refl)
refund_tx-some (some c) count last h = ground arith

-- A refund that is found stands in the history of the lockup script, and where there is a claim,
-- more than one transaction spends from that script.
pub chain_receive_refund_sound :
    (address_from_script : String → Option String) (tx_map : TxMap)
    (history : ReceiveChainSwapHistory) (lockup_script : String) {h : History}
    → let d = recover_onchain_data address_from_script tx_map history lockup_script in
      d.btc_refund_tx_id ≡ some h
      → Memᴰ h history.btc_lockup_script_history
        × ((d.lbtc_claim_tx_id ≡ none)
            ⊎ (1
                < length
                    (filter (λ tx. not (pays_to lockup_script tx)) history.btc_lockup_script_txs)))
unfolding recover_onchain_data
chain_receive_refund_sound address_from_script tx_map history lockup_script r =
    let outgoing = filter (λ tx. not (pays_to lockup_script tx)) history.btc_lockup_script_txs in
    let entries = history_entries history.btc_lockup_script_history outgoing in
    let (last, spent) = refund_tx-some _ (length outgoing) _ r in
    (
      history_entries-mem history.btc_lockup_script_history outgoing (
          or_else-mem _ (last? entries) (λ z e. find_last-mem _ entries {x = z} e)
            (λ z e. last?-mem entries {x = z} e) last),
      spent,
    )
