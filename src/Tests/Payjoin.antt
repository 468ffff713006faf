-- ===== src/Tests/Payjoin.antt =====
-- Coins to choose from, and a payjoin transaction of one asset.
use breez_sdk_liquid.Base.{
  ℕ, ◌+◌, ◌*◌, ◌/◌, ◌%◌, String, Bool, ◌&&◌, Option, some, List, [], ◌∷◌, ◌≡◌, refl, arith, ltb,
  u64_mod, add_u64, sub_u64,
}
use breez_sdk_liquid.Base.Text.{str_eq}
use breez_sdk_liquid.Base.Result.{ok}
use breez_sdk_liquid.Payjoin.Amounts.{InOut, add_amount, add_all, amounts_eq}
use breez_sdk_liquid.Payjoin.Amounts.Total.{total}
use breez_sdk_liquid.Payjoin.Asset.{
  AssetSelectRequest, AssetSelectResult, asset_select, select_assets, select_asset, pay_with,
}
use breez_sdk_liquid.Payjoin.Asset.Balanced.{asset_select-balanced}
use breez_sdk_liquid.Payjoin.Fee.{F64, weight_to_vsize, tx_weight, vsize_to_fee, weight_to_fee, fee}
use breez_sdk_liquid.Payjoin.Inner.{
  UtxoSelectRequest, UtxoSelectResult, counts_to, concat, rounds, solution, play, play_all,
  utxo_select_inner,
}
use breez_sdk_liquid.Payjoin.Range.{
  sort_down, record_solution, rewind, step_back, add_utxo, step, run, values_at,
  utxo_select_in_range, utxo_select_best,
}
use breez_sdk_liquid.Payjoin.Range.Sound.{InRange, target_of, utxo_select_in_range-InRange}
use breez_sdk_liquid.Payjoin.Select.{sum_u64, select_until, utxo_select_basic, utxo_select_fixed}
use breez_sdk_liquid.Payjoin.Select.Sound.{Basic, utxo_select_basic-Basic}
use breez_sdk_liquid.Payjoin.Validate.{validate_selection, utxo_select}
use breez_sdk_liquid.Payjoin.Validate.Balanced.{IsBalanced, utxo_select-IsBalanced}

abbrev coins : List ℕ
coins = 50 ∷ 100 ∷ 30 ∷ 54 ∷ []

utxo_select_basic-Basic_example : Basic 120 coins (utxo_select_basic 120 coins)
utxo_select_basic-Basic_example = utxo_select_basic-Basic 120 coins (omega arith)

utxo_select_in_range-InRange_example :
    (o : Option (List ℕ)) × (utxo_select_in_range 100 5 2 coins ≡ some o)
    × InRange (target_of 100 5 2 coins) o
utxo_select_in_range-InRange_example = utxo_select_in_range-InRange 100 5 2 coins (omega arith)

-- The search does find two coins in that range.
in_range-finds : utxo_select_in_range 100 5 2 coins ≡ some (some (54 ∷ 50 ∷ []))
unfolding utxo_select_in_range sort_down sum_u64 add_u64 record_solution rewind step_back add_utxo
    step run values_at
in_range-finds = refl

-- Decimal numbers with one digit after the point.
abbrev decimals : F64
decimals = record {
  Float = ℕ;
  from_int = λ n. 10 * n;
  to_u64 = λ x. x / 10;
  ceil = λ x. (x + 9) / 10 * 10;
  times = λ x y. x * y / 10;
  is_positive = λ x. ltb 0 x;
  min_fee_rate = 1;
}

abbrev coin : String → ℕ → InOut
coin asset value = record { asset_id = asset; value = value }

-- The only assets are "gold" and "usdt", in this order.
abbrev asset_lt : String → String → Bool
asset_lt a b = str_eq a "gold" && str_eq b "usdt"

abbrev asset_request : AssetSelectRequest
asset_request = record {
  fee_asset = "usdt";
  wallet_utxos = coin "gold" 70 ∷ coin "gold" 50 ∷ coin "usdt" 500 ∷ [];
  user_outputs = coin "usdt" 100 ∷ coin "gold" 60 ∷ [];
}

abbrev asset_result : AssetSelectResult
asset_result = record {
  asset_inputs = coin "gold" 70 ∷ [];
  user_outputs = coin "usdt" 100 ∷ coin "gold" 60 ∷ [];
  change_outputs = coin "gold" 10 ∷ [];
  user_output_amounts = ("gold", 60) ∷ ("usdt", 100) ∷ [];
}

asset_select-balanced_example :
    total "gold" asset_result.asset_inputs % u64_mod
    ≡ (total "gold" asset_request.user_outputs + total "gold" asset_result.change_outputs) % u64_mod
unfolding asset_select select_assets select_asset pay_with add_all add_amount utxo_select_best
    utxo_select_basic select_until utxo_select_in_range sort_down sum_u64 add_u64 sub_u64
    record_solution rewind step_back add_utxo step run values_at
asset_select-balanced_example =
    asset_select-balanced asset_lt asset_request "gold" {r = asset_result} refl refl

abbrev request : UtxoSelectRequest decimals
request = record {
  policy_asset = "lbtc";
  fee_asset = "usdt";
  price = 20;
  fixed_fee = 5;
  wallet_utxos = coin "usdt" 400 ∷ [];
  server_utxos = coin "lbtc" 900 ∷ [];
  user_outputs = coin "usdt" 100 ∷ [];
}

abbrev selection : UtxoSelectResult
selection = record {
  user_inputs = [];
  client_inputs = coin "usdt" 400 ∷ [];
  server_inputs = coin "lbtc" 900 ∷ [];
  user_outputs = coin "usdt" 100 ∷ [];
  change_outputs = [];
  server_fee = coin "usdt" 103;
  server_change = some (coin "lbtc" 851);
  fee_change = some (coin "usdt" 197);
  network_fee = coin "lbtc" 49;
  cost = 103;
}

utxo_select-IsBalanced_example :
    (utxo_select_inner decimals asset_lt request ≡ some (ok selection))
    × IsBalanced decimals asset_lt request selection
unfolding utxo_select validate_selection amounts_eq utxo_select_inner play_all play solution rounds
    concat counts_to fee weight_to_fee vsize_to_fee weight_to_vsize tx_weight asset_select
    select_assets add_all add_amount utxo_select_fixed utxo_select_in_range sort_down sum_u64
    add_u64 sub_u64 record_solution rewind step_back add_utxo step run values_at
utxo_select-IsBalanced_example =
    utxo_select-IsBalanced decimals asset_lt request {r = selection} refl
