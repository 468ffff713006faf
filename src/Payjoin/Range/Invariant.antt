-- ===== src/Payjoin/Range/Invariant.antt =====
-- The invariant of the search: the selection picks each coin at most once, and the two running sums
-- are what they stand for.
use breez_sdk_liquid.Base.{
  ℕ, zero, suc, ◌+◌, ◌<◌, ◌≤◌, Option, some, none, List, [], ◌∷◌, ◌≡◌, refl, ◌⊎◌, arith, sum, drop,
  length, get_elem?,
}
use breez_sdk_liquid.Payjoin.Range.{Search, Target}

-- Indices below a bound, each below the one before, with the coins at them.
pub data Picks (us : List ℕ) : ℕ → List ℕ → List ℕ → Type 0 where
  nothing : {i : ℕ} → Picks us i [] []
  pick :
      {i j v : ℕ} {js vs : List ℕ}
      → j < i
      → get_elem? us j ≡ some v
      → Picks us j js vs
      → Picks us i (j ∷ js) (v ∷ vs)

pub Picks-weaken :
    {us : List ℕ} {i k : ℕ} {js vs : List ℕ} → i ≤ k → Picks us i js vs → Picks us k js vs
Picks-weaken h nothing = nothing
Picks-weaken h (pick l g p) = pick (omega arith) g p

pub get-drop :
    (us : List ℕ) (j : ℕ) {v : ℕ}
    → get_elem? us j ≡ some v
    → sum (drop j us) ≡ v + sum (drop (suc j) us)
get-drop [] j h = cc
get-drop (u ∷ us) zero h = cc
get-drop (u ∷ us) (suc j) h = get-drop us j h

pub get-lt : (us : List ℕ) (j : ℕ) → j < length us → (v : ℕ) × (get_elem? us j ≡ some v)
get-lt [] j h = absurd (omega arith)
get-lt (u ∷ us) zero h = (u, refl)
get-lt (u ∷ us) (suc j) h = get-lt us j (omega arith)

sum-drop : (us : List ℕ) (i : ℕ) → sum (drop i us) ≤ sum us
sum-drop us zero = omega arith
sum-drop [] (suc i) = omega arith
sum-drop (u ∷ us) (suc i) = omega (arith, sum-drop us i)

pub drop_le : (us : List ℕ) (j i : ℕ) → j ≤ i → sum (drop i us) ≤ sum (drop j us)
drop_le us zero i h = sum-drop us i
drop_le us (suc j) zero h = absurd (omega arith)
drop_le [] (suc j) (suc i) h = omega arith
drop_le (u ∷ us) (suc j) (suc i) h = drop_le us j i (omega arith)

pub drop_all : (us : List ℕ) (i : ℕ) → length us ≤ i → sum (drop i us) ≡ 0
drop_all [] zero h = refl
drop_all [] (suc i) h = refl
drop_all (u ∷ us) zero h = absurd (omega arith)
drop_all (u ∷ us) (suc i) h = drop_all us i (omega arith)

pub Picks-sum :
    {us : List ℕ} {i : ℕ} {js vs : List ℕ} → Picks us i js vs → sum vs + sum (drop i us) ≤ sum us
Picks-sum {us} {i} nothing = omega (arith, sum-drop us i)
Picks-sum {us} {i} (pick {j = j} l g p) =
    omega (arith, Picks-sum p, get-drop us j g, drop_le us (suc j) i (omega arith))

-- A selection that solves the search, if there is any.
abbrev pub IsSolution : Target → Option (List ℕ) → Type 0
IsSolution t none = Unit
IsSolution t (some js) =
    (vs : List ℕ) × Picks t.utxos (length t.utxos) js vs
    × (t.target_value ≤ sum vs)
    × (sum vs ≤ t.upper_bound)
    × ((t.target_utxo_count ≡ 0) ⊎ (length js ≡ t.target_utxo_count))

pub record Inv (t : Target) (s : Search) : Type 0 where
  pub vs : List ℕ
  pub picks : Picks t.utxos s.index s.index_selection vs
  pub value_is : s.value ≡ sum vs
  pub available_is : s.available_value ≡ sum (drop s.index t.utxos)
  pub in_bounds : s.index ≤ length t.utxos
  pub best : IsSolution t s.best_selection
