-- ===== src/Payjoin/Fee.antt =====
-- lib/core/src/payjoin/network_fee.rs: the network fee of a transaction. The arithmetic of `f64` is
-- the fields of `F64`.
use breez_sdk_liquid.Base.{ℕ, ◌+◌, ◌*◌, ◌/◌, Bool}

pub record F64 : Type 1 where
  pub Float : Type 0
  -- `n as f64`, and `x as u64`
  pub from_int : ℕ → Float
  pub to_u64 : Float → ℕ
  pub ceil : Float → Float
  pub times : Float → Float → Float
  -- `x > 0.0`
  pub is_positive : Float → Bool
  -- 0.1
  pub min_fee_rate : Float

abbrev pub weight_fixed : ℕ
weight_fixed = 222

abbrev pub weight_vin_single_sig_native : ℕ
weight_vin_single_sig_native = 275

abbrev pub weight_vin_single_sig_nested : ℕ
weight_vin_single_sig_nested = 367

abbrev pub weight_vout_nested : ℕ
weight_vout_nested = 270

unfoldable pub weight_to_vsize : ℕ → ℕ
weight_to_vsize weight = (weight + 3) / 4

pub record TxFee : Type 0 where
  pub server_inputs : ℕ
  pub user_inputs : ℕ
  pub outputs : ℕ

unfoldable pub tx_weight : TxFee → ℕ
tx_weight t =
    weight_fixed
    + weight_vin_single_sig_native * t.server_inputs
    + weight_vin_single_sig_nested * t.user_inputs
    + weight_vout_nested * t.outputs

module _ (f64 : F64) where
  unfoldable pub vsize_to_fee : ℕ → f64.Float → ℕ
  vsize_to_fee vsize fee_rate = f64.to_u64 (f64.ceil (f64.times (f64.from_int vsize) fee_rate))

  unfoldable pub weight_to_fee : ℕ → f64.Float → ℕ
  weight_to_fee weight fee_rate = vsize_to_fee (weight_to_vsize weight) fee_rate

  unfoldable pub fee : TxFee → ℕ
  fee t = weight_to_fee (tx_weight t) f64.min_fee_rate
