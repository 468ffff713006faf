-- ===== src/Payjoin/Amounts/Total.antt =====
-- The amount of an asset in a map is the total of what was added for it, up to the wrap-around.
use breez_sdk_liquid.Base.{
  ℕ, ◌+◌, ◌%◌, String, Bool, true, List, [], ◌∷◌, ◌≡◌, refl, inl, inr, arith, if◌then◌else◌,
  add_u64, u64_mod, Bool-cases,
}
use breez_sdk_liquid.Base.Text.{str_eq, str_eq→eq}
use breez_sdk_liquid.Payjoin.Amounts.{InOut, Amounts, add_amount, add_all, amounts_eq}

-- What the inputs or outputs carry of an asset.
abbrev pub total : String → List InOut → ℕ
total asset [] = 0
total asset (x ∷ xs) = (if str_eq x.asset_id asset then x.value else 0) + total asset xs

-- What the map has for an asset.
abbrev pub amount : String → Amounts → ℕ
amount asset [] = 0
amount asset ((k, v) ∷ m) = (if str_eq k asset then v else 0) + amount asset m

module _ (asset_lt : String → String → Bool) (asset : String) where
  add_amount-amount :
      (k : String) (v : ℕ) (m : Amounts)
      → amount asset (add_amount asset_lt k v m) % u64_mod
        ≡ (amount asset m + (if str_eq k asset then v else 0)) % u64_mod
  unfolding add_amount add_u64
  add_amount-amount k v [] = ground arith
  add_amount-amount k v ((j, w) ∷ m) = elim (Bool-cases (str_eq j k)) [
    | inl same ↦ let e : j ≡ k = str_eq→eq j k same in rw (same, add_amount) (rw e (ground arith))
    | inr other ↦ ground (arith, add_amount-amount k v m)
  ]

  pub add_all-amount :
      (xs : List InOut) (m : Amounts)
      → amount asset (add_all asset_lt xs m) % u64_mod ≡ (amount asset m + total asset xs) % u64_mod
  unfolding add_all
  add_all-amount [] m = omega arith
  add_all-amount (x ∷ xs) m = omega (
    arith,
    add_all-amount xs (add_amount asset_lt x.asset_id x.value m),
    add_amount-amount x.asset_id x.value m,
  )

pub amounts_eq-amount :
    (asset : String) (m n : Amounts) → amounts_eq m n ≡ true → amount asset m ≡ amount asset n
unfolding amounts_eq
amounts_eq-amount asset [] [] h = refl
amounts_eq-amount asset [] (x ∷ n) h = cc
amounts_eq-amount asset (x ∷ m) [] h = cc
amounts_eq-amount asset ((k, v) ∷ m) ((j, w) ∷ n) h = elim (Bool-cases (str_eq k j)) [
  | inr other ↦ absurd (ground arith)
  | inl same ↦
      let e : k ≡ j = str_eq→eq k j same in rw e (ground (arith, amounts_eq-amount asset m n))
]
