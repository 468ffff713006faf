-- ===== src/Payjoin/Range.antt =====
-- lib/core/src/payjoin/utxo_select/mod.rs: `utxo_select_in_range`, the search for coins whose sum is
-- in a range. A panic of the source (an index out of bounds) is an outcome. The selection is a list
-- of indices with the last one first.
pub mod Sort
pub mod Invariant
pub mod Step
pub mod Selection
pub mod Sound
use breez_sdk_liquid.Base.{
  ℕ, zero, suc, ◌+◌, ◌-◌, Bool, true, false, not, ◌&&◌, ◌||◌, Option, some, none, List, [], ◌∷◌,
  reverse, if◌then◌else◌, ltb, leb, ◌==◌, is_none, and_then, length, get_elem?, add_u64, u64_max,
}
use breez_sdk_liquid.Payjoin.Select.{sum_u64, utxo_select_basic}

abbrev pub utxo_selection_iteration_limit : ℕ
utxo_selection_iteration_limit = 100000

-- `sort` and `reverse`: the coins from the largest to the smallest.
pub insert : ℕ → List ℕ → List ℕ
insert x [] = x ∷ []
insert x (y ∷ ys) = let rest = insert x ys in if leb y x then x ∷ y ∷ ys else y ∷ rest

unfoldable pub sort_down : List ℕ → List ℕ
unfolding insert
sort_down [] = []
sort_down (x ∷ xs) = insert x (sort_down xs)

pub record Search : Type 0 where
  pub index : ℕ
  pub value : ℕ
  pub available_value : ℕ
  pub current_change : ℕ
  pub best_change : ℕ
  pub index_selection : List ℕ
  pub best_selection : Option (List ℕ)

pub record Target : Type 0 where
  pub utxos : List ℕ
  pub target_value : ℕ
  pub upper_bound : ℕ
  pub target_utxo_count : ℕ

pub data Outcome : Type 0 where
  continue : Search → Outcome
  stop : Outcome
  panic : Outcome

module _ (t : Target) where
  -- No solution can follow, or the value is too large.
  abbrev pub is_dead_end : Search → Bool
  is_dead_end s =
      ltb (add_u64 s.available_value s.value) t.target_value
      || (ltb t.upper_bound s.value || ltb s.best_change s.current_change)

  abbrev pub is_shorter : List ℕ → Option (List ℕ) → Bool
  is_shorter selection none = true
  is_shorter selection (some best) = leb (length selection) (length best)

  abbrev pub count_fits : Search → Bool
  count_fits s =
      ((t.target_utxo_count == 0) && is_shorter s.index_selection s.best_selection)
      || (length s.index_selection == t.target_utxo_count)

  -- The value reaches the target: the selection is kept if it is better than the best one.
  unfoldable pub record_solution : Search → Search
  record_solution s =
      let change = s.value - t.target_value in
      let current_change = add_u64 s.current_change change in
      let better = leb current_change s.best_change && count_fits s in
      record s {
        best_selection = if better then some s.index_selection else s.best_selection;
        best_change = if better then current_change else s.best_change;
        current_change = current_change - change;
      }

  -- The inner loop: from the index down to the last one selected; what is passed is available again.
  unfoldable pub rewind : ℕ → ℕ → ℕ → Option (ℕ × ℕ)
  rewind last zero available = none
  rewind last (suc index) available = elim (get_elem? t.utxos index) [
    | none ↦ if leb index last then some (index, available) else none
    | some utxo_value ↦
        let rest = rewind last index (add_u64 available utxo_value) in
        if leb index last then some (index, available) else rest
  ]

  -- The last index is taken out of the selection.
  abbrev pub pop : Search → ℕ → List ℕ → ℕ × ℕ → Outcome
  pop s last selection (index, available) =
      if index == last
      then elim (get_elem? t.utxos index) [
        | none ↦ panic
        | some utxo_value ↦ continue (record s {
          index = index + 1;
          value = s.value - utxo_value;
          available_value = available;
          index_selection = selection;
        })
      ]
      else continue (record s { index = index + 1; available_value = available })

  unfoldable pub step_back : Search → Outcome
  step_back s = elim (s.index_selection) [
    | [] ↦ stop
    | last ∷ selection ↦ elim (rewind last s.index s.available_value) [
      | none ↦ panic
      | some reached ↦ pop s last selection reached
    ]
  ]

  unfoldable pub add_utxo : Search → Outcome
  add_utxo s = elim (get_elem? t.utxos s.index) [
    | none ↦ panic
    | some utxo_value ↦ continue (record s {
      index = s.index + 1;
      value = add_u64 s.value utxo_value;
      available_value = s.available_value - utxo_value;
      index_selection = s.index ∷ s.index_selection;
    })
  ]

  abbrev pub is_full : Search → Bool
  is_full s = not (t.target_utxo_count == 0) && leb t.target_utxo_count (length s.index_selection)

  unfoldable pub step : Search → Search × Outcome
  step s =
      let reached = leb t.target_value s.value in
      let s' = if not (is_dead_end s) && reached then record_solution s else s in
      (s', if is_dead_end s || (reached || is_full s) then step_back s' else add_utxo s')

  -- The main loop, with the number of iterations left: the best selection, or `none` for a panic.
  unfoldable pub run : ℕ → Search → Option (Option (List ℕ))
  run zero s = some s.best_selection
  run (suc n) s =
      let (s', outcome) = step s in
      elim outcome [ continue next ↦ run n next | stop ↦ some s'.best_selection | panic ↦ none ]

  -- The values of the selection, in the order of the indices.
  unfoldable pub values_at : List ℕ → Option (List ℕ)
  values_at [] = some []
  values_at (i ∷ is) =
      and_then (get_elem? t.utxos i) (λ v. and_then (values_at is) (λ vs. some (v ∷ vs)))

abbrev pub start : List ℕ → Search
start utxos = record {
  index = 0;
  value = 0;
  available_value = sum_u64 utxos;
  current_change = 0;
  best_change = u64_max;
  index_selection = [];
  best_selection = none;
}

abbrev pub chosen : Target → Option (List ℕ) → Option (Option (List ℕ))
chosen t none = some none
chosen t (some selection) = and_then (values_at t (reverse selection)) (λ vs. some (some vs))

-- The outer option is `none` for a panic.
unfoldable pub utxo_select_in_range : ℕ → ℕ → ℕ → List ℕ → Option (Option (List ℕ))
utxo_select_in_range target_value upper_bound_delta target_utxo_count coins =
    let t : Target = record {
      utxos = sort_down coins;
      target_value = target_value;
      upper_bound = add_u64 target_value upper_bound_delta;
      target_utxo_count = target_utxo_count;
    } in
    elim (ltb (sum_u64 t.utxos) target_value) [
      | true ↦ some none
      | false ↦ and_then (run t utxo_selection_iteration_limit (start t.utxos)) (chosen t)
    ]

unfoldable pub utxo_select_best : ℕ → List ℕ → Option (Option (List ℕ))
utxo_select_best target_value utxos =
    and_then (utxo_select_in_range target_value 0 0 utxos) (λ found. elim found [
      | some selection ↦ some (some selection)
      | none ↦ some (utxo_select_basic target_value utxos)
    ])
