-- ===== src/Payjoin/Validate.antt =====
-- lib/core/src/payjoin/utxo_select/mod.rs: the check of a selection, and the selection as a whole.
pub mod Balanced
use breez_sdk_liquid.Base.{
  ℕ, ◌+◌, ◌*◌, String, Bool, Option, some, none, List, [], ◌∷◌, ◌++◌, if◌then◌else◌, leb, is_some,
  length, add_u64, u64_mod, ◌%◌,
}
use breez_sdk_liquid.Base.Result.{Result, ok, err, ◌>>=◌, ◌>>◌, ensure}
use breez_sdk_liquid.Model.Errors.{AnyError, anyhow}
use breez_sdk_liquid.Payjoin.Amounts.{InOut, add_all, amounts_eq}
use breez_sdk_liquid.Payjoin.Fee.{F64, fee}
use breez_sdk_liquid.Payjoin.Inner.{
  UtxoSelectRequest, UtxoSelectResult, usize_from, priced, utxo_select_inner,
}

-- `option.iter()`
abbrev pub to_list : Option InOut → List InOut
to_list none = []
to_list (some x) = x ∷ []

abbrev pub all_inputs : UtxoSelectResult → List InOut
all_inputs r = r.user_inputs ++ (r.client_inputs ++ r.server_inputs)

abbrev pub all_outputs : UtxoSelectResult → List InOut
all_outputs r =
    r.user_outputs
    ++ (r.change_outputs
        ++ (r.server_fee
            ∷ (to_list r.server_change ++ (to_list r.fee_change ++ (r.network_fee ∷ [])))))

-- `2 * n` of a `u64`
abbrev pub twice : ℕ → ℕ
twice n = (2 * n) % u64_mod

module _ (f64 : F64) (asset_lt : String → String → Bool) where
  abbrev pub required_network_fee : UtxoSelectResult → ℕ
  required_network_fee r = fee f64 (record {
    server_inputs = length r.server_inputs;
    user_inputs = length r.user_inputs + length r.client_inputs;
    outputs =
        length r.user_outputs
        + length r.change_outputs
        + 1
        + usize_from (is_some r.server_change)
        + usize_from (is_some r.fee_change);
  })

  abbrev pub required_server_fee : UtxoSelectRequest f64 → UtxoSelectResult → ℕ
  required_server_fee request r =
      add_u64 (priced f64 request.price r.network_fee.value) request.fixed_fee

  unfoldable pub validate_selection :
      UtxoSelectRequest f64 → UtxoSelectResult → Result AnyError (Unit {0})
  validate_selection request r = do
    let inputs = add_all asset_lt (all_inputs r) []
    let outputs = add_all asset_lt (all_outputs r) []
    ensure (amounts_eq inputs outputs) anyhow
    ensure (leb (required_network_fee r) r.network_fee.value) anyhow
    ensure (leb r.network_fee.value (twice (required_network_fee r))) anyhow
    ensure (leb (required_server_fee request r) r.server_fee.value) anyhow
    ensure (leb r.server_fee.value (twice (required_server_fee request r))) anyhow

  abbrev pub checked :
      UtxoSelectRequest f64
      → Option (Result AnyError UtxoSelectResult)
      → Option (Result AnyError UtxoSelectResult)
  checked request none = none
  checked request (some (err failure)) = some (err failure)
  checked request (some (ok r)) = some (validate_selection request r >> ok r)

  unfoldable pub utxo_select : UtxoSelectRequest f64 → Option (Result AnyError UtxoSelectResult)
  utxo_select request = checked request (utxo_select_inner f64 asset_lt request)
