-- ===== src/Payjoin/Range/Sound.antt =====
-- `utxo_select_in_range` does not panic, and what it selects is in the range.
use breez_sdk_liquid.Base.{
  ℕ, zero, suc, ◌<◌, ◌≤◌, Bool, true, false, not, ◌&&◌, ◌||◌, Option, some, none, List, [], reverse,
  ◌≡◌, refl, ◌⊎◌, inl, inr, arith, sum, length, u64_mod, ltb, leb, if◌then◌else◌, Bool-cases,
  add_u64,
}
use breez_sdk_liquid.Payjoin.Select.{sum_u64}
use breez_sdk_liquid.Payjoin.Select.Sound.{sum_u64-sum}
use breez_sdk_liquid.Payjoin.Range.{
  Search, Target, Outcome, continue, stop, panic, is_dead_end, record_solution, step_back, add_utxo,
  is_full, step, run, start, chosen, sort_down, utxo_select_in_range,
  utxo_selection_iteration_limit,
}
use breez_sdk_liquid.Payjoin.Range.Invariant.{Picks, nothing, IsSolution, Inv}
use breez_sdk_liquid.Payjoin.Range.Sort.{sort_down-Perm, Perm-sum}
use breez_sdk_liquid.Payjoin.Range.Selection.{
  sum-reverse, length-reverse, Picks-length, values_at-Picks,
}
use breez_sdk_liquid.Payjoin.Range.Step.{
  record_solution-Inv, step_back-Progress, add_utxo-Inv, Progress,
}

module _ (t : Target) (fits : sum t.utxos < u64_mod) where
  -- One step, with its three tests as arguments.
  abbrev recorded : Search → Bool → Bool → Search
  recorded s dead reached = if not dead && reached then record_solution t s else s

  after_tests :
      (s : Search) (dead reached full : Bool)
      → Inv t s
      → (dead ≡ false
          → (t.target_value ≤ add_u64 s.available_value s.value) × (s.value ≤ t.upper_bound))
      → (reached ≡ true → t.target_value ≤ s.value)
      → (reached ≡ false → s.value < t.target_value)
      → let s' = recorded s dead reached in
        IsSolution t s'.best_selection
        × Progress t fits (if dead || (reached || full) then step_back t s' else add_utxo t s')
  after_tests s true reached full inv alive high low = (inv.best, step_back-Progress t fits s inv)
  after_tests s false true full inv alive high low =
      let inv' = record_solution-Inv t fits s inv (high refl) (alive refl).1 in
      (inv'.best, step_back-Progress t fits (record_solution t s) inv')
  after_tests s false false true inv alive high low = (inv.best, step_back-Progress t fits s inv)
  after_tests s false false false inv alive high low =
      (inv.best, inr (add_utxo-Inv t fits s inv (low refl) (alive refl).0))

  step-Progress :
      (s : Search)
      → Inv t s
      → let (s', outcome) = step t s in IsSolution t s'.best_selection × Progress t fits outcome
  unfolding step
  step-Progress s inv =
      after_tests s (is_dead_end t s) (leb t.target_value s.value) (is_full t s) inv
        (λ e. ground arith) (λ e. ground arith) (λ e. ground arith)

  after_outcome :
      (n : ℕ) (best : Option (List ℕ)) (outcome : Outcome)
      → IsSolution t best
      → Progress t fits outcome
      → ((s : Search)
          → Inv t s
          → (found : Option (List ℕ)) × (run t n s ≡ some found) × IsSolution t found)
      → (found : Option (List ℕ)) × (elim outcome [
        | continue next ↦ run t n next
        | stop ↦ some best
        | panic ↦ none
      ]
          ≡ some found)
        × IsSolution t found
  after_outcome n best outcome solution (inl e) rest = (best, rw e refl, solution)
  after_outcome n best outcome solution (inr (next, e, inv)) rest =
      let (found, runs, good) = rest next inv in (found, rw e runs, good)

  -- The search ends without a panic, whatever the number of iterations.
  run-solves :
      (n : ℕ) (s : Search)
      → Inv t s
      → (found : Option (List ℕ)) × (run t n s ≡ some found) × IsSolution t found
  unfolding run
  run-solves zero s inv = (s.best_selection, refl, inv.best)
  run-solves (suc n) s inv =
      let (solution, progress) = step-Progress s inv in
      after_outcome n _ _ solution progress (run-solves n)

-- Coins that were picked from the sorted ones, each at most once, with their sum in the range and,
-- where a count was asked for, as many as that; or nothing.
abbrev pub InRange : Target → Option (List ℕ) → Type 0
InRange t none = Unit
InRange t (some coins) =
    (js vs : List ℕ) × Picks t.utxos (length t.utxos) js vs
    × (coins ≡ reverse vs)
    × (t.target_value ≤ sum coins)
    × (sum coins ≤ t.upper_bound)
    × ((t.target_utxo_count ≡ 0) ⊎ (length coins ≡ t.target_utxo_count))

start-Inv : (t : Target) → sum t.utxos < u64_mod → Inv t (start t.utxos)
start-Inv t fits = record {
  vs = [];
  picks = nothing;
  value_is = refl;
  available_is = sum_u64-sum t.utxos fits;
  in_bounds = omega arith;
  best = tt;
}

chosen-InRange :
    (t : Target) (found : Option (List ℕ))
    → IsSolution t found
    → (o : Option (List ℕ)) × (chosen t found ≡ some o) × InRange t o
chosen-InRange t none solution = (none, refl, tt)
chosen-InRange t (some js) (vs, picks, low, high, count) = (
  some (reverse vs),
  rw (values_at-Picks t picks) refl,
  (
    js,
    vs,
    picks,
    refl,
    rw (sum-reverse vs) low,
    rw (sum-reverse vs) high,
    rw (length-reverse vs, ← Picks-length picks) count,
  ),
)

-- The search for coins in a range, started in a table of coins: the target is what is asked for.
abbrev pub target_of : ℕ → ℕ → ℕ → List ℕ → Target
target_of target_value upper_bound_delta target_utxo_count coins = record {
  utxos = sort_down coins;
  target_value = target_value;
  upper_bound = add_u64 target_value upper_bound_delta;
  target_utxo_count = target_utxo_count;
}

-- `utxo_select_in_range` never panics, and what it returns was picked from the coins, sorted from
-- the largest, with a sum in the range and as many as asked for, given that the sum of the coins
-- fits into 64 bits.
pub utxo_select_in_range-InRange :
    (target_value upper_bound_delta target_utxo_count : ℕ) (coins : List ℕ)
    → sum coins < u64_mod
    → (o : Option (List ℕ)) × (utxo_select_in_range target_value upper_bound_delta target_utxo_count
          coins
        ≡ some o)
      × InRange (target_of target_value upper_bound_delta target_utxo_count coins) o
unfolding utxo_select_in_range
utxo_select_in_range-InRange target_value delta count coins fits =
    let t = target_of target_value delta count coins in
    let sorted_fits : sum t.utxos < u64_mod = rw (← Perm-sum (sort_down-Perm coins)) fits in
    elim (Bool-cases (ltb (sum_u64 t.utxos) target_value)) [
      | inl too_little ↦ (none, rw (too_little, utxo_select_in_range) refl, tt)
      | inr enough ↦
          let (found, runs, solution) =
            run-solves t sorted_fits utxo_selection_iteration_limit (start t.utxos)
              (start-Inv t sorted_fits) in
          let (o, picked, good) = chosen-InRange t found solution in
          (o, rw (enough, utxo_select_in_range) (rw runs picked), good)
    ]
