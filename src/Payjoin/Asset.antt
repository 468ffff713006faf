-- ===== src/Payjoin/Asset.antt =====
-- lib/core/src/payjoin/utxo_select/asset.rs: the inputs that pay for the user's outputs in each asset
-- but the one for the fee. The outer option of a result is `none` for a panic.
pub mod Balanced
use breez_sdk_liquid.Base.{
  ℕ, String, Bool, true, false, not, ◌&&◌, Option, some, none, List, [], ◌∷◌, ◌++◌, map,
  if◌then◌else◌, ltb, leb, filter, all, sub_u64,
}
use breez_sdk_liquid.Base.Text.{str_eq}
use breez_sdk_liquid.Base.Result.{Result, ok, err}
use breez_sdk_liquid.Model.Errors.{AnyError, anyhow}
use breez_sdk_liquid.Payjoin.Amounts.{InOut, Amounts, add_all}
use breez_sdk_liquid.Payjoin.Select.{sum_u64}
use breez_sdk_liquid.Payjoin.Range.{utxo_select_best}

pub record AssetSelectRequest : Type 0 where
  pub fee_asset : String
  pub wallet_utxos : List InOut
  pub user_outputs : List InOut

pub record AssetSelectResult : Type 0 where
  pub asset_inputs : List InOut
  pub user_outputs : List InOut
  pub change_outputs : List InOut
  pub user_output_amounts : Amounts

abbrev pub has_value : InOut → Bool
has_value x = ltb 0 x.value

-- The values of the coins of an asset.
abbrev pub values_of : String → List InOut → List ℕ
values_of asset utxos =
    map (λ (x : InOut). x.value) (filter (λ (x : InOut). str_eq x.asset_id asset) utxos)

abbrev pub of_asset : String → List ℕ → List InOut
of_asset asset values = map (λ v. record { asset_id = asset; value = v }) values

-- The inputs and the change of an asset for the coins that are selected.
unfoldable pub pay_with : String → ℕ → List ℕ → Result AnyError (List InOut × List InOut)
pay_with asset target_value selected =
    let total_value = sum_u64 selected in
    let change_amount = sub_u64 total_value target_value in
    let change : List InOut =
      if ltb 0 change_amount then record { asset_id = asset; value = change_amount } ∷ [] else [] in
    if leb target_value total_value then ok (of_asset asset selected, change) else err anyhow

abbrev pub pay_if_selected :
    String → ℕ → Option (Option (List ℕ)) → Option (Result AnyError (List InOut × List InOut))
pay_if_selected asset target_value none = none
pay_if_selected asset target_value (some none) = some (err anyhow)
pay_if_selected asset target_value (some (some selected)) =
    some (pay_with asset target_value selected)

unfoldable pub select_asset :
    List InOut → String → ℕ → Option (Result AnyError (List InOut × List InOut))
select_asset wallet_utxos asset target_value =
    let wallet_utxo = values_of asset wallet_utxos in
    if ltb (sum_u64 wallet_utxo) target_value
    then some (err anyhow)
    else pay_if_selected asset target_value (utxo_select_best target_value wallet_utxo)

-- The assets after one another, until one of them fails.
abbrev pub join :
    Option (Result AnyError (List InOut × List InOut))
    → Option (Result AnyError (List InOut × List InOut))
    → Option (Result AnyError (List InOut × List InOut))
join none rest = none
join (some (err failure)) rest = some (err failure)
join (some (ok paid)) none = none
join (some (ok paid)) (some (err failure)) = some (err failure)
join (some (ok (inputs, changes))) (some (ok (more_inputs, more_changes))) =
    some (ok (inputs ++ more_inputs, changes ++ more_changes))

unfoldable pub select_assets :
    String → List InOut → Amounts → Option (Result AnyError (List InOut × List InOut))
select_assets fee_asset wallet_utxos [] = some (ok ([], []))
select_assets fee_asset wallet_utxos ((asset, target_value) ∷ amounts) =
    let rest = select_assets fee_asset wallet_utxos amounts in
    if str_eq asset fee_asset
    then rest
    else join (select_asset wallet_utxos asset target_value) rest

abbrev pub with_request :
    AssetSelectRequest
    → Amounts
    → Option (Result AnyError (List InOut × List InOut))
    → Option (Result AnyError AssetSelectResult)
with_request request amounts none = none
with_request request amounts (some (err failure)) = some (err failure)
with_request request amounts (some (ok (inputs, changes))) = some (
    ok (record {
      asset_inputs = inputs;
      user_outputs = request.user_outputs;
      change_outputs = changes;
      user_output_amounts = amounts;
    }))

unfoldable pub asset_select :
    (String → String → Bool) → AssetSelectRequest → Option (Result AnyError AssetSelectResult)
asset_select asset_lt request =
    let amounts = add_all asset_lt request.user_outputs [] in
    if not (all has_value request.wallet_utxos && all has_value request.user_outputs)
    then some (err anyhow)
    else with_request request amounts (select_assets request.fee_asset request.wallet_utxos amounts)
