-- ===== src/Recover/Lockup/Sound.antt =====
-- What `determine_incoming_lockup_and_claim_txs` returns.
use breez_sdk_liquid.Base.{
  ◌≡◌, refl, ◌⊎◌, inl, inr, Bool, true, false, some, none, Option, [], ◌∷◌, Bool-cases, arith,
  some_unique,
}
use breez_sdk_liquid.Base.Int.{ltb_ℤ}
use breez_sdk_liquid.Model.{History, confirmed}
use breez_sdk_liquid.Recover.{TxMap, contains_key}
use breez_sdk_liquid.Recover.Lockup.{by_confirmation, determine_incoming_lockup_and_claim_txs}

module _ (m : TxMap) where
  abbrev pub pays_us : History → Bool
  pays_us tx = contains_key tx.txid m.incoming_tx_map

  -- What is promised of the lockup and the claim that two transactions of a script are read as.
  pub record IsSound (a b : History) (lockup claim : Option History) : Type 0 where
    -- the claim pays to us, and the lockup is the other transaction
    pub claim_is_ours :
        (c : History)
        → claim ≡ some c
        → (pays_us c ≡ true) × (((c ≡ a) × (lockup ≡ some b)) ⊎ ((c ≡ b) × (lockup ≡ some a)))
    -- a transaction that pays to us makes a claim
    pub no_claim : claim ≡ none → (pays_us a ≡ false) × (pays_us b ≡ false)
    -- a lockup without a claim is one of the two, is confirmed, and the other one, which took it
    -- back, was not confirmed at a lower height
    pub refunded :
        (l : History)
        → claim ≡ none
        → lockup ≡ some l
        → (confirmed l ≡ true)
          × (((l ≡ a) × ((confirmed b ≡ false) ⊎ (ltb_ℤ b.height l.height ≡ false)))
              ⊎ ((l ≡ b) × ((confirmed a ≡ false) ⊎ (ltb_ℤ a.height l.height ≡ false))))
    -- only where nothing is known there is no lockup
    pub no_lockup : lockup ≡ none → (claim ≡ none) × (confirmed a ≡ false) × (confirmed b ≡ false)

  ltb-asym : (a b : History) → ltb_ℤ a.height b.height ≡ true → ltb_ℤ b.height a.height ≡ false
  ltb-asym a b h = ground arith

  first_lockup :
      (a b : History)
      → pays_us a ≡ false
      → pays_us b ≡ false
      → confirmed a ≡ true
      → (confirmed b ≡ false) ⊎ (ltb_ℤ b.height a.height ≡ false)
      → IsSound a b (some a) none
  first_lockup a b ha hb ca late = record {
    claim_is_ours = λ c h. cc;
    no_claim = λ h. (ha, hb);
    refunded =
        λ l h k. let e : a ≡ l = some_unique {o = some a} refl k in rw (← e) (ca, inl (refl, late));
    no_lockup = λ h. cc;
  }

  second_lockup :
      (a b : History)
      → pays_us a ≡ false
      → pays_us b ≡ false
      → confirmed b ≡ true
      → (confirmed a ≡ false) ⊎ (ltb_ℤ a.height b.height ≡ false)
      → IsSound a b (some b) none
  second_lockup a b ha hb cb late = record {
    claim_is_ours = λ c h. cc;
    no_claim = λ h. (ha, hb);
    refunded =
        λ l h k. let e : b ≡ l = some_unique {o = some b} refl k in rw (← e) (cb, inr (refl, late));
    no_lockup = λ h. cc;
  }

  swapper_refund :
      (a b : History) (a_confirmed b_confirmed : Bool)
      → pays_us a ≡ false
      → pays_us b ≡ false
      → confirmed a ≡ a_confirmed
      → confirmed b ≡ b_confirmed
      → let (lockup, claim) = by_confirmation a_confirmed b_confirmed a b in
        IsSound a b lockup claim
  unfolding by_confirmation
  swapper_refund a b true true ha hb ca cb = elim (Bool-cases (ltb_ℤ a.height b.height)) [
    | inl e ↦ rw e (first_lockup a b ha hb ca (inr (ltb-asym a b e)))
    | inr e ↦ rw e (second_lockup a b ha hb cb (inr e))
  ]
  swapper_refund a b true false ha hb ca cb = first_lockup a b ha hb ca (inl cb)
  swapper_refund a b false true ha hb ca cb = second_lockup a b ha hb cb (inl ca)
  swapper_refund a b false false ha hb ca cb = record {
    claim_is_ours = λ c h. cc;
    no_claim = λ h. (ha, hb);
    refunded = λ l h k. cc;
    no_lockup = λ h. (refl, ca, cb);
  }

  -- One of the two pays to us.
  claimed :
      (a b c l : History)
      → pays_us c ≡ true
      → ((c ≡ a) × (l ≡ b)) ⊎ ((c ≡ b) × (l ≡ a))
      → IsSound a b (some l) (some c)
  claimed a b c l ours pair = record {
    claim_is_ours = λ d h.
        let e : c ≡ d = some_unique {o = some c} refl h in
        rw (← e)
          (ours, elim pair [ inl (i, j) ↦ inl (i, rw j refl) | inr (i, j) ↦ inr (i, rw j refl) ]);
    no_claim = λ h. cc;
    refunded = λ d h k. cc;
    no_lockup = λ h. cc;
  }

  -- Of two transactions of an incoming swap's script, the claim is one that pays to us, and the
  -- lockup is the other; if there is no claim, neither pays to us. A lockup without a claim is
  -- confirmed, and the other transaction is not confirmed or not at a lower height. There is no
  -- lockup only if there is no claim and neither transaction is confirmed.
  pub determine-IsSound :
      (a b : History)
      → let (lockup, claim) = determine_incoming_lockup_and_claim_txs (a ∷ b ∷ []) m in
        IsSound a b lockup claim
  unfolding determine_incoming_lockup_and_claim_txs
  determine-IsSound a b = elim (Bool-cases (pays_us a)) [
    | inl ha ↦ rw ha (claimed a b a b ha (inl (refl, refl)))
    | inr ha ↦ elim (Bool-cases (pays_us b)) [
      | inl hb ↦ rw (ha, hb) (claimed a b b a hb (inr (refl, refl)))
      | inr hb ↦ rw (ha, hb) (swapper_refund a b (confirmed a) (confirmed b) ha hb refl refl)
    ]
  ]
