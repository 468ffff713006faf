-- ===== src/Payjoin/Range/Selection.antt =====
-- The values of a selection, read back in the order in which they were picked.
use mathlib.Core.List.{reverse-cons}
use breez_sdk_liquid.Base.{
  ℕ, suc, some, List, [], ◌∷◌, ◌++◌, reverse, ◌≡◌, refl, ap, arith, sum, sum-append, length,
  length-append, get_elem?, and_then-some,
}
use breez_sdk_liquid.Payjoin.Range.{Target, values_at}
use breez_sdk_liquid.Payjoin.Range.Invariant.{Picks, nothing, pick}

pub sum-reverse : (xs : List ℕ) → sum (reverse xs) ≡ sum xs
sum-reverse [] = refl
sum-reverse (x ∷ xs) =
    rw (reverse-cons x xs) (omega (arith, sum-append (reverse xs) (x ∷ []), sum-reverse xs))

pub length-reverse : (xs : List ℕ) → length (reverse xs) ≡ length xs
length-reverse [] = refl
length-reverse (x ∷ xs) =
    rw (reverse-cons x xs) (omega (arith, length-append (reverse xs) (x ∷ []), length-reverse xs))

pub Picks-length : {us js vs : List ℕ} {i : ℕ} → Picks us i js vs → length js ≡ length vs
Picks-length nothing = refl
Picks-length (pick l g p) = ap suc (Picks-length p)

module _ (t : Target) where
  values_at-append :
      (is js : List ℕ) {vs ws : List ℕ}
      → values_at t is ≡ some vs
      → values_at t js ≡ some ws
      → values_at t (is ++ js) ≡ some (vs ++ ws)
  unfolding values_at
  values_at-append [] js {vs} h k = let e : [] ≡ vs = cc in rw (← e) k
  values_at-append (i ∷ is) js {vs} {ws} h k =
      let (v, g, r) = and_then-some (get_elem? t.utxos i) _ h in
      let (us, e, q) = and_then-some (values_at t is) (λ us. some (v ∷ us)) r in
      let d : v ∷ us ≡ vs = cc in rw (← d, g) (rw (values_at-append is js e k) refl)

  -- No index of a selection is out of bounds.
  pub values_at-Picks :
      {i : ℕ} {js vs : List ℕ}
      → Picks t.utxos i js vs
      → values_at t (reverse js) ≡ some (reverse vs)
  unfolding values_at
  values_at-Picks nothing = refl
  values_at-Picks (pick {j = j} {v = v} {js = js} {vs = vs} l g p) =
      rw (reverse-cons j js, reverse-cons v vs)
        (values_at-append (reverse js) (j ∷ []) (values_at-Picks p) (rw g refl))
