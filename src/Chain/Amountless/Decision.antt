-- ===== src/Chain/Amountless/Decision.antt =====
-- What the decision on a quote means in amounts.
use breez_sdk_liquid.Base.{
  ℕ, String, true, false, ◌+◌, ◌-◌, ◌≤◌, ◌<◌, ◌≡◌, refl, inl, inr, ltb, lt→ltb, ltb→lt, Bool-cases,
  u64_mod, sub_u64, arith,
}
use breez_sdk_liquid.Base.Result.{ok}
use breez_sdk_liquid.Model.{ChainSwap}
use breez_sdk_liquid.Chain.Amountless.{
  ValidateAmountlessSwapResult, ready_for_accepting, requires_user_action, GetBalanceRes, ChainPair,
  Quoting, user_lockup_amount, server_lockup_amount_estimate, decide_quote, leeway,
  validate_amountless_swap, is_incoming,
}

-- The right decision: a quote that is ready to accept costs at most the pair's fees and the leeway,
-- and splits into the received amount and the claim fees. One that asks the user costs more.
abbrev pub Decision : ChainPair → ℕ → ChainSwap → ℕ → ℕ → ValidateAmountlessSwapResult → Type 0
Decision pair extra swap amount quote (ready_for_accepting lockup received) =
    (lockup ≡ amount)
    × (amount ≤ quote + (extra + (pair.server + pair.boltz amount)))
    × (received + swap.claim_fees_sat ≡ quote)
Decision pair extra swap amount quote (requires_user_action lockup) =
    (lockup ≡ amount) × (quote + (extra + (pair.server + pair.boltz amount)) < amount)

sub_u64-exact : (a b : ℕ) → b ≤ a → a < u64_mod → sub_u64 a b + b ≡ a
unfolding sub_u64
sub_u64-exact a b h w = omega arith

estimate-exact :
    (pair : ChainPair) (amount : ℕ)
    → pair.server + pair.boltz amount ≤ amount
    → amount < u64_mod
    → server_lockup_amount_estimate pair amount + (pair.server + pair.boltz amount) ≡ amount
unfolding server_lockup_amount_estimate sub_u64
estimate-exact pair amount fees word = omega arith

asks :
    (quote estimate extra fees amount : ℕ)
    → quote < estimate - extra
    → estimate + fees ≡ amount
    → quote + (extra + fees) < amount
asks quote estimate extra fees amount less e = omega arith

accepts :
    (quote estimate extra fees amount : ℕ)
    → estimate - extra ≤ quote
    → estimate + fees ≡ amount
    → amount ≤ quote + (extra + fees)
accepts quote estimate extra fees amount enough e = omega arith

ltb-false : (a b : ℕ) → ltb a b ≡ false → b ≤ a
ltb-false a b h = ground arith

decide_quote-Decision :
    (pair : ChainPair) (extra : ℕ) (swap : ChainSwap) (amount quote : ℕ)
    → pair.server + pair.boltz amount ≤ amount
    → amount < u64_mod
    → swap.claim_fees_sat ≤ quote
    → quote < u64_mod
    → Decision pair extra swap amount quote (decide_quote pair extra swap amount quote)
unfolding decide_quote
decide_quote-Decision pair extra swap amount quote fees word claim quote_word =
    let e = estimate-exact pair amount fees word in
    let r = sub_u64-exact quote swap.claim_fees_sat claim quote_word in
    let estimate = server_lockup_amount_estimate pair amount in
    elim (Bool-cases (ltb quote (estimate - extra))) [
      | inl dear ↦ rw dear (refl, asks quote estimate extra _ amount (ltb→lt quote _ dear) e)
      | inr fair ↦
          rw fair (refl, accepts quote estimate extra _ amount (ltb-false quote _ fair) e, r)
    ]

-- For an incoming swap whose lockup script has a balance, the validation of a quote succeeds when
-- the lookups do, and decides by the amounts alone: it is ready for accepting exactly when the
-- locked amount is covered by the quote, the leeway and the pair's fees, and then the amount to
-- receive and the claim fees add up to the quote. The fees must fit into the locked amount, the
-- claim fees into the quote, and both amounts into 64 bits.
pub validate_amountless-Decision :
    (quoting : Quoting) (swap : ChainSwap) (quote : ℕ) {script : String} {balance : GetBalanceRes}
    {pair : ChainPair}
    → is_incoming swap.direction ≡ true
    → quoting.get_receive_lockup_swap_script_pubkey swap ≡ ok script
    → quoting.script_get_balance_with_retry script ≡ ok balance
    → quoting.get_boltz_pair swap ≡ ok pair
    → 0 < user_lockup_amount balance
    → pair.server + pair.boltz (user_lockup_amount balance) ≤ user_lockup_amount balance
    → user_lockup_amount balance < u64_mod
    → swap.claim_fees_sat ≤ quote
    → quote < u64_mod
    → (outcome : ValidateAmountlessSwapResult) × (validate_amountless_swap quoting swap quote
        ≡ ok outcome)
      × Decision pair (leeway quoting) swap (user_lockup_amount balance) quote outcome
unfolding validate_amountless_swap
validate_amountless-Decision quoting swap quote {script} {balance} {pair} dir at found priced
      some_sats fees word claim quote_word =
    let amount = user_lockup_amount balance in
    (
      decide_quote pair (leeway quoting) swap amount quote,
      rw (dir, validate_amountless_swap, at, found, priced, lt→ltb 0 amount some_sats) refl,
      decide_quote-Decision pair (leeway quoting) swap amount quote fees word claim quote_word,
    )
