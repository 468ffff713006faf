-- ===== src/Payjoin/Amounts.antt =====
-- lib/core/src/payjoin: inputs and outputs, and the amounts of each asset. A `BTreeMap` is a list of
-- keys and values in the order of the keys, which is that of the asset ids.
pub mod Total
use breez_sdk_liquid.Base.{
  ℕ, ◌+◌, String, Bool, true, false, ◌&&◌, List, [], ◌∷◌, if◌then◌else◌, ◌==◌, add_u64, unwrap_or,
}
use breez_sdk_liquid.Base.Text.{str_eq}

pub record InOut : Type 0 where
  pub asset_id : String
  pub value : ℕ

abbrev pub Amounts : Type 0
Amounts = List (String × ℕ)

-- `*map.entry(asset_id).or_default() += value`
module _ (asset_lt : String → String → Bool) where
  unfoldable pub add_amount : String → ℕ → Amounts → Amounts
  add_amount asset_id value [] = (asset_id, add_u64 0 value) ∷ []
  add_amount asset_id value ((k, v) ∷ m) =
      let rest = add_amount asset_id value m in
      if str_eq k asset_id
      then (k, add_u64 v value) ∷ m
      else if asset_lt asset_id k
      then (asset_id, add_u64 0 value) ∷ (k, v) ∷ m
      else (k, v) ∷ rest

  unfoldable pub add_all : List InOut → Amounts → Amounts
  add_all [] m = m
  add_all (x ∷ xs) m = add_all xs (add_amount x.asset_id x.value m)

-- `==` of two maps
unfoldable pub amounts_eq : Amounts → Amounts → Bool
amounts_eq [] [] = true
amounts_eq ((k, v) ∷ m) ((j, w) ∷ n) = str_eq k j && ((v == w) && amounts_eq m n)
amounts_eq [] (_ ∷ _) = false
amounts_eq (_ ∷ _) [] = false
