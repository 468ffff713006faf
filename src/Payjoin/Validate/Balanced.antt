-- ===== src/Payjoin/Validate/Balanced.antt =====
-- A selection that is returned is balanced in each asset, with fees within their bounds.
use breez_sdk_liquid.Base.{
  ◌+◌, ◌-◌, ◌∷◌, ◌++◌, refl, is_some, length, length-append, ◌≤◌, ◌%◌, String, Bool, true, Option,
  some, none, [], ◌≡◌, arith, leb→le, u64_mod,
}
use breez_sdk_liquid.Base.Result.{Result, ok, err, >>=-eq-ok, ensure-eq-ok}
use breez_sdk_liquid.Model.Errors.{AnyError, anyhow}
use breez_sdk_liquid.Payjoin.Amounts.{InOut, add_all, amounts_eq}
use breez_sdk_liquid.Payjoin.Amounts.Total.{total, add_all-amount, amounts_eq-amount}
use breez_sdk_liquid.Payjoin.Fee.{F64, fee}
use breez_sdk_liquid.Payjoin.Inner.{
  usize_from, UtxoSelectRequest, UtxoSelectResult, utxo_select_inner,
}
use breez_sdk_liquid.Payjoin.Validate.{
  to_list, all_inputs, all_outputs, twice, required_network_fee, required_server_fee,
  validate_selection, checked, utxo_select,
}

module _ (f64 : F64) (asset_lt : String → String → Bool) (request : UtxoSelectRequest f64) where
  -- Inputs and outputs agree in each asset, up to the wrap-around of the sums, and both fees are at
  -- least what is required and at most twice that.
  pub record IsBalanced (r : UtxoSelectResult) : Type 0 where
    pub balanced :
        (asset : String)
        → total asset (all_inputs r) % u64_mod ≡ total asset (all_outputs r) % u64_mod
    -- the network fee that is required is the one of all inputs and of all outputs but its own
    pub all_counted :
        required_network_fee f64 asset_lt r
        ≡ fee f64 (record {
          server_inputs = length r.server_inputs;
          user_inputs = length (all_inputs r) - length r.server_inputs;
          outputs = length (all_outputs r) - 1;
        })
    pub network_fee_enough : required_network_fee f64 asset_lt r ≤ r.network_fee.value
    pub network_fee_bounded : r.network_fee.value ≤ twice (required_network_fee f64 asset_lt r)
    pub server_fee_enough : required_server_fee f64 asset_lt request r ≤ r.server_fee.value
    pub server_fee_bounded : r.server_fee.value ≤ twice (required_server_fee f64 asset_lt request r)

  same_totals :
      (r : UtxoSelectResult)
      → amounts_eq (add_all asset_lt (all_inputs r) []) (add_all asset_lt (all_outputs r) []) ≡ true
      → (asset : String)
      → total asset (all_inputs r) % u64_mod ≡ total asset (all_outputs r) % u64_mod
  same_totals r h asset = omega (
    arith,
    amounts_eq-amount asset _ _ h,
    add_all-amount asset_lt asset (all_inputs r) [],
    add_all-amount asset_lt asset (all_outputs r) [],
  )

  to_list-length : (x : Option InOut) → length (to_list x) ≡ usize_from (is_some x)
  to_list-length none = refl
  to_list-length (some x) = refl

  inputs-length :
      (r : UtxoSelectResult)
      → length (all_inputs r) - length r.server_inputs
        ≡ length r.user_inputs + length r.client_inputs
  inputs-length r = omega (
    arith,
    length-append r.user_inputs (r.client_inputs ++ r.server_inputs),
    length-append r.client_inputs r.server_inputs,
  )

  outputs-length :
      (r : UtxoSelectResult)
      → length (all_outputs r) - 1
        ≡ length r.user_outputs
          + length r.change_outputs
          + 1
          + usize_from (is_some r.server_change)
          + usize_from (is_some r.fee_change)
  outputs-length r =
      let own = r.network_fee ∷ [] in
      let fees = to_list r.fee_change ++ own in
      let server = to_list r.server_change ++ fees in
      omega (
        arith,
        length-append r.user_outputs (r.change_outputs ++ (r.server_fee ∷ server)),
        length-append r.change_outputs (r.server_fee ∷ server),
        length-append (to_list r.server_change) fees,
        length-append (to_list r.fee_change) own,
        to_list-length r.server_change,
        to_list-length r.fee_change,
      )

  validate-IsBalanced :
      (r : UtxoSelectResult) → validate_selection f64 asset_lt request r ≡ ok tt → IsBalanced r
  unfolding validate_selection
  validate-IsBalanced r h =
      let (_, a, h1) = >>=-eq-ok _ _ h in
      let (_, b, h2) = >>=-eq-ok _ _ h1 in
      let (_, c, h3) = >>=-eq-ok _ _ h2 in
      let (_, d, e) = >>=-eq-ok _ _ h3 in
      record {
        balanced = same_totals r (ensure-eq-ok _ anyhow a);
        all_counted = rw (inputs-length r, outputs-length r) refl;
        network_fee_enough = leb→le _ _ (ensure-eq-ok _ anyhow b);
        network_fee_bounded = leb→le _ _ (ensure-eq-ok _ anyhow c);
        server_fee_enough = leb→le _ _ (ensure-eq-ok _ anyhow d);
        server_fee_bounded = leb→le _ _ (ensure-eq-ok _ anyhow e);
      }

  checked-IsBalanced :
      (inner : Option (Result AnyError UtxoSelectResult)) {r : UtxoSelectResult}
      → checked f64 asset_lt request inner ≡ some (ok r)
      → (inner ≡ some (ok r)) × IsBalanced r
  checked-IsBalanced none h = cc
  checked-IsBalanced (some (err failure)) h = cc
  checked-IsBalanced (some (ok s)) {r} h =
      let (_, valid, e) =
        >>=-eq-ok (validate_selection f64 asset_lt request s) (λ u. ok s) {result = r} (cc) in
      let same : s ≡ r = cc in (cc, rw (← same) (validate-IsBalanced s valid))

  -- A selection that `utxo_select` returns is the one of the inner search, its inputs and outputs
  -- agree in each asset, up to the wrap-around of the sums, and the network fee and the server fee
  -- are at least what is required for it and at most twice that, where the network fee counts all of
  -- its inputs and all of its outputs but the one for the network fee.
  pub utxo_select-IsBalanced :
      {r : UtxoSelectResult}
      → utxo_select f64 asset_lt request ≡ some (ok r)
      → (utxo_select_inner f64 asset_lt request ≡ some (ok r)) × IsBalanced r
  unfolding utxo_select
  utxo_select-IsBalanced h = checked-IsBalanced (utxo_select_inner f64 asset_lt request) h
