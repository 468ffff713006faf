-- ===== src/Payjoin/Range/Step.antt =====
-- Each part of a step of the search keeps the invariant, and none of them panics.
use breez_sdk_liquid.Base.{
  ℕ, zero, suc, ◌+◌, ◌-◌, ◌<◌, ◌≤◌, Bool, true, false, some, List, [], ◌∷◌, ◌≡◌, refl, ap, ◌⊎◌, inl,
  inr, arith, sum, drop, length, get_elem?, u64_mod, leb, ◌==◌, if◌then◌else◌, Bool-cases, add_u64,
  add_u64-eq,
}
use breez_sdk_liquid.Payjoin.Range.{
  Search, Target, Outcome, continue, stop, count_fits, record_solution, rewind, step_back, add_utxo,
}
use breez_sdk_liquid.Payjoin.Range.Invariant.{
  Picks, nothing, pick, Picks-weaken, get-drop, get-lt, drop_le, drop_all, Picks-sum, IsSolution,
  Inv,
}

lt_or_le : (a b : ℕ) → (a < b) ⊎ (b ≤ a)
lt_or_le a b = ground arith

suc_eq : (n : ℕ) → suc n ≡ n + 1
suc_eq n = omega arith

module _ (t : Target) (fits : sum t.utxos < u64_mod) where
  count-fits :
      (s : Search)
      → count_fits t s ≡ true
      → (t.target_utxo_count ≡ 0) ⊎ (length s.index_selection ≡ t.target_utxo_count)
  count-fits s h = ground arith

  kept :
      (s : Search) (better : Bool)
      → (better ≡ true → count_fits t s ≡ true)
      → Inv t s
      → t.target_value ≤ s.value
      → s.value ≤ t.upper_bound
      → IsSolution t (if better then some s.index_selection else s.best_selection)
  kept s false h inv low high = inv.best
  kept s true h inv low high = (
    inv.vs,
    Picks-weaken inv.in_bounds inv.picks,
    rw (← inv.value_is) low,
    rw (← inv.value_is) high,
    count-fits s (h refl),
  )

  pub record_solution-Inv :
      (s : Search)
      → Inv t s
      → t.target_value ≤ s.value
      → s.value ≤ t.upper_bound
      → Inv t (record_solution t s)
  unfolding record_solution
  record_solution-Inv s inv low high = record {
    vs = inv.vs;
    picks = inv.picks;
    value_is = inv.value_is;
    available_is = inv.available_is;
    in_bounds = inv.in_bounds;
    best = kept s _ (λ e. ground arith) inv low high;
  }

  -- The inner loop stops at the last index that is selected.
  rewinds :
      (last i available : ℕ)
      → last < i
      → i ≤ length t.utxos
      → available ≡ sum (drop i t.utxos)
      → rewind t last i available ≡ some (last, sum (drop (suc last) t.utxos))
  unfolding rewind
  rewinds last zero available l b a = absurd (omega arith)
  rewinds last (suc k) available l b a =
      let (v, g) = get-lt t.utxos k (omega arith) in
      elim (Bool-cases (leb k last)) [
        | inl here ↦ let e : k ≡ last = ground arith in rw (g, here, rewind) (rw (a, e) refl)
        | inr above ↦
            let d = get-drop t.utxos k g in
            let w = drop_le t.utxos 0 k (omega arith) in
            let e : add_u64 available v ≡ available + v =
              add_u64-eq available v (omega (arith, d, w)) in
            rw (g, above, rewind)
              (rewinds last k (add_u64 available v) (ground arith) (omega arith)
                (rw e (omega (arith, d))))
      ]

  -- The search stops or goes on with the invariant.
  abbrev pub Progress : Outcome → Type 0
  Progress o = (o ≡ stop) ⊎ ((next : Search) × (o ≡ continue next) × Inv t next)

  eq_refl : (n : ℕ) → (n == n) ≡ true
  eq_refl n = ground arith

  -- The last index leaves the selection, and its coin the value.
  popped :
      (s : Search) (j v : ℕ) (js vs : List ℕ)
      → Inv t s
      → s.index_selection ≡ j ∷ js
      → s.value ≡ v + sum vs
      → j < s.index
      → get_elem? t.utxos j ≡ some v
      → Picks t.utxos j js vs
      → Progress (step_back t s)
  unfolding step_back
  popped s j v js vs inv e value l g p =
      let r = rewinds j s.index s.available_value l inv.in_bounds inv.available_is in
      rw (e, r, eq_refl j, g, step_back)
        (inr (
          _,
          refl,
          record {
            vs = vs;
            picks = Picks-weaken (omega arith) p;
            value_is = omega arith;
            available_is = ap (λ k. sum (drop k t.utxos)) (suc_eq j);
            in_bounds = let b = inv.in_bounds in omega arith;
            best = inv.best;
          },
        ))

  pub step_back-Progress : (s : Search) → Inv t s → Progress (step_back t s)
  unfolding step_back
  step_back-Progress s inv = back s.index_selection inv.vs refl inv.picks inv.value_is
    where
      back :
          (js vs : List ℕ)
          → s.index_selection ≡ js
          → Picks t.utxos s.index js vs
          → s.value ≡ sum vs
          → Progress (step_back t s)
      back [] (v ∷ vs) e p value = elim p [ ]
      back (j ∷ js) [] e p value = elim p [ ]
      back [] [] e nothing value = rw (e, step_back) (inl refl)
      back (j ∷ js) (v ∷ vs) e (pick l g p) value = popped s j v js vs inv e value l g p

  abbrev added : Search → ℕ → Search
  added s v = record s {
    index = s.index + 1;
    value = add_u64 s.value v;
    available_value = s.available_value - v;
    index_selection = s.index ∷ s.index_selection;
  }

  in_reach :
      (s : Search)
      → Inv t s
      → s.value < t.target_value
      → t.target_value ≤ s.available_value + s.value
      → s.index < length t.utxos
  in_reach s inv low reach = elim (lt_or_le s.index (length t.utxos)) [
    | inl l ↦ l
    | inr past ↦
        let none_left = drop_all t.utxos s.index past in
        let available_is = inv.available_is in absurd (omega arith)
  ]

  -- A value below the target that can still reach it leaves a coin to add.
  pub add_utxo-Inv :
      (s : Search)
      → Inv t s
      → s.value < t.target_value
      → t.target_value ≤ add_u64 s.available_value s.value
      → (next : Search) × (add_utxo t s ≡ continue next) × Inv t next
  unfolding add_utxo
  add_utxo-Inv s inv low reach =
      let p = Picks-sum inv.picks in
      let value_is = inv.value_is in
      let available_is = inv.available_is in
      let total = add_u64-eq s.available_value s.value (omega arith) in
      let left : s.index < length t.utxos = in_reach s inv low (rw (← total) reach) in
      let (v, g) = get-lt t.utxos s.index left in
      let d = get-drop t.utxos s.index g in
      let e = add_u64-eq s.value v (omega arith) in
      let shift : sum (drop (suc s.index) t.utxos) ≡ sum (drop (s.index + 1) t.utxos) =
        ap (λ k. sum (drop k t.utxos)) (suc_eq s.index) in
      (
        added s v,
        rw (g, add_utxo) refl,
        record {
          vs = v ∷ inv.vs;
          picks = pick (omega arith) g inv.picks;
          value_is = omega arith;
          available_is = omega (arith, shift, d);
          in_bounds = omega arith;
          best = inv.best;
        },
      )
