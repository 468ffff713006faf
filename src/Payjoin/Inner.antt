-- ===== src/Payjoin/Inner.antt =====
-- lib/core/src/payjoin/utxo_select/mod.rs: the search over the numbers of inputs and the change
-- outputs for the transaction of the least cost. The outer option of a result is `none` for a panic.
use breez_sdk_liquid.Base.{
  ℕ, zero, suc, ◌+◌, String, Bool, true, false, not, ◌&&◌, Option, some, none, List, [], ◌∷◌, ◌++◌,
  map, if◌then◌else◌, ltb, ◌==◌, length, all, unwrap_or, add_u64, sub_u64,
}
use breez_sdk_liquid.Base.Text.{str_eq}
use breez_sdk_liquid.Base.Result.{Result, ok, err, ok_or}
use breez_sdk_liquid.Model.Errors.{AnyError, anyhow}
use breez_sdk_liquid.Recover.{get}
use breez_sdk_liquid.Payjoin.Amounts.{InOut}
use breez_sdk_liquid.Payjoin.Asset.{AssetSelectResult, has_value, values_of, of_asset, asset_select}
use breez_sdk_liquid.Payjoin.Fee.{F64, fee, weight_to_fee, weight_vout_nested}
use breez_sdk_liquid.Payjoin.Range.{sort_down, utxo_select_in_range}
use breez_sdk_liquid.Payjoin.Select.{sum_u64, utxo_select_fixed}

pub record UtxoSelectRequest (f64 : F64) : Type 0 where
  pub policy_asset : String
  pub fee_asset : String
  pub price : F64.Float f64
  pub fixed_fee : ℕ
  pub wallet_utxos : List InOut
  pub server_utxos : List InOut
  pub user_outputs : List InOut

pub record UtxoSelectResult : Type 0 where
  pub user_inputs : List InOut
  pub client_inputs : List InOut
  pub server_inputs : List InOut
  pub user_outputs : List InOut
  pub change_outputs : List InOut
  pub server_fee : InOut
  pub server_change : Option InOut
  pub fee_change : Option InOut
  pub network_fee : InOut
  pub cost : ℕ

-- One round of the loops.
pub record Round : Type 0 where
  pub with_fee_change : Bool
  pub with_server_change : Bool
  pub server_input_count : ℕ
  pub fee_input_count : ℕ

abbrev pub usize_from : Bool → ℕ
usize_from true = 1
usize_from false = 0

-- `1..=n`
unfoldable pub counts_to : ℕ → List ℕ
counts_to zero = []
counts_to (suc n) = counts_to n ++ (suc n ∷ [])

unfoldable pub concat : List (List Round) → List Round
concat [] = []
concat (x ∷ xs) = x ++ concat xs

-- The rounds of the four nested loops, less those that `continue` passes over at once.
unfoldable pub rounds : ℕ → ℕ → List Round
rounds server_count fee_count =
    let fee_counts : List ℕ = if fee_count == 0 then [] else fee_count ∷ [] in
    concat (
      map
        (λ fee_change. concat (
          map
            (λ server_change. concat (
              map
                (λ servers.
                  map
                    (λ fees. record {
                      with_fee_change = fee_change;
                      with_server_change = server_change;
                      server_input_count = servers;
                      fee_input_count = fees;
                    })
                    fee_counts)
                (counts_to server_count)))
            (false ∷ true ∷ [])))
        (false ∷ true ∷ []))

module _ (f64 : F64) where
  open f64 use {from_int, to_u64, times, is_positive}

  -- `(n as f64 * price) as u64`
  abbrev pub priced : F64.Float f64 → ℕ → ℕ
  priced price n = to_u64 (times (from_int n) price)

  abbrev pub output_fee : ℕ
  output_fee = weight_to_fee f64 weight_vout_nested f64.min_fee_rate

  module _ (request : UtxoSelectRequest f64) (assets : AssetSelectResult)
      (fee_utxos server_utxos : List ℕ) where
    -- Coins with a change output, or coins in a range that needs none.
    abbrev pub inputs_for : Bool → ℕ → ℕ → ℕ → List ℕ → Option (Option (List ℕ))
    inputs_for with_change target upper_bound_delta count utxos =
        if with_change
        then some (utxo_select_fixed (add_u64 target 1) count utxos)
        else utxo_select_in_range target upper_bound_delta count utxos

    abbrev pub min_network_fee : Round → ℕ
    min_network_fee r = fee f64 (record {
      server_inputs = r.server_input_count;
      user_inputs = length assets.asset_inputs + r.fee_input_count;
      outputs =
          length assets.user_outputs
          + length assets.change_outputs
          + usize_from r.with_fee_change
          + usize_from r.with_server_change
          + 1;
    })

    abbrev pub user_asset_output : ℕ
    user_asset_output = unwrap_or (get request.fee_asset assets.user_output_amounts) 0

    abbrev pub server_change : Round → List ℕ → ℕ
    server_change r server_inputs =
        if r.with_server_change then sub_u64 (sum_u64 server_inputs) (min_network_fee r) else 0

    abbrev pub network_fee : Round → List ℕ → ℕ
    network_fee r server_inputs = sub_u64 (sum_u64 server_inputs) (server_change r server_inputs)

    abbrev pub fee_asset_target : Round → List ℕ → ℕ
    fee_asset_target r server_inputs =
        add_u64 user_asset_output
          (add_u64 (priced request.price (network_fee r server_inputs)) request.fixed_fee)

    abbrev pub coin : String → ℕ → InOut
    coin asset value = record { asset_id = asset; value = value }

    -- The transaction of a round, for the inputs that were found.
    unfoldable pub solution : Round → List ℕ → List ℕ → UtxoSelectResult
    solution r server_inputs fee_inputs =
        let fee_change =
          if r.with_fee_change
          then sub_u64 (sum_u64 fee_inputs) (fee_asset_target r server_inputs)
          else 0 in
        let server_fee = sub_u64 (sub_u64 (sum_u64 fee_inputs) fee_change) user_asset_output in
        record {
          user_inputs = assets.asset_inputs;
          client_inputs = of_asset request.fee_asset fee_inputs;
          server_inputs = of_asset request.policy_asset server_inputs;
          user_outputs = assets.user_outputs;
          change_outputs = assets.change_outputs;
          server_fee = coin request.fee_asset server_fee;
          server_change =
              if r.with_server_change
              then some (coin request.policy_asset (server_change r server_inputs))
              else none;
          fee_change = if r.with_fee_change then some (coin request.fee_asset fee_change) else none;
          network_fee = coin request.policy_asset (network_fee r server_inputs);
          cost = server_fee;
        }

    -- The cheaper of two; the earlier one if they cost the same.
    abbrev pub cheaper : Option UtxoSelectResult → UtxoSelectResult → UtxoSelectResult
    cheaper none new = new
    cheaper (some best) new = if ltb new.cost best.cost then new else best

    abbrev fee_inputs_of : Round → List ℕ → Option (Option (List ℕ))
    fee_inputs_of r server_inputs =
        inputs_for r.with_fee_change (fee_asset_target r server_inputs)
          (priced request.price output_fee) r.fee_input_count fee_utxos

    abbrev with_fee_inputs :
        Round
        → Option UtxoSelectResult
        → List ℕ
        → Option (Option (List ℕ))
        → Option (Option UtxoSelectResult)
    with_fee_inputs r best server_inputs none = none
    with_fee_inputs r best server_inputs (some none) = some best
    with_fee_inputs r best server_inputs (some (some fee_inputs)) =
        some (some (cheaper best (solution r server_inputs fee_inputs)))

    abbrev with_server_inputs :
        Round
        → Option UtxoSelectResult
        → Option (Option (List ℕ))
        → Option (Option UtxoSelectResult)
    with_server_inputs r best none = none
    with_server_inputs r best (some none) = some best
    with_server_inputs r best (some (some server_inputs)) =
        with_fee_inputs r best server_inputs (fee_inputs_of r server_inputs)

    unfoldable pub play : Round → Option UtxoSelectResult → Option (Option UtxoSelectResult)
    play r best = with_server_inputs r best (
        inputs_for r.with_server_change (min_network_fee r) output_fee r.server_input_count
          server_utxos)

    unfoldable pub play_all :
        List Round → Option UtxoSelectResult → Option (Option UtxoSelectResult)
    play_all [] best = some best
    play_all (r ∷ rs) best = elim (play r best) [ none ↦ none | some next ↦ play_all rs next ]

  abbrev pub is_sane : UtxoSelectRequest f64 → Bool
  is_sane request =
      not (str_eq request.fee_asset request.policy_asset)
      && (is_positive request.price
          && (ltb 0 request.fixed_fee
              && (all has_value request.wallet_utxos
                  && all (λ (x : InOut). str_eq x.asset_id request.policy_asset && has_value x)
                      request.server_utxos)))

  abbrev or_failed : Option (Option UtxoSelectResult) → Option (Result AnyError UtxoSelectResult)
  or_failed none = none
  or_failed (some best) = some (ok_or best anyhow)

  abbrev with_assets :
      UtxoSelectRequest f64
      → Option (Result AnyError AssetSelectResult)
      → Option (Result AnyError UtxoSelectResult)
  with_assets request none = none
  with_assets request (some (err failure)) = some (err failure)
  with_assets request (some (ok assets)) =
      let fee_utxos = values_of request.fee_asset request.wallet_utxos in
      let server_utxos = sort_down (map (λ (x : InOut). x.value) request.server_utxos) in
      or_failed (
        play_all request assets fee_utxos server_utxos
          (rounds (length server_utxos) (length fee_utxos)) none)

  unfoldable pub utxo_select_inner :
      (String → String → Bool) → UtxoSelectRequest f64 → Option (Result AnyError UtxoSelectResult)
  utxo_select_inner asset_lt request =
      if not (is_sane request)
      then some (err anyhow)
      else with_assets request (
          asset_select asset_lt (record {
            fee_asset = request.fee_asset;
            wallet_utxos = request.wallet_utxos;
            user_outputs = request.user_outputs;
          }))
