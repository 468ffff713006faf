-- ===== src/Recover.antt =====
-- lib/core/src/recover/model.rs: the wallet transactions that the recovery of a swap looks at.
-- `WalletTx` is a type of the wallet library; the fields that the recovery reads are kept. A
-- `HashMap` that is only read is an association list.
pub mod Lockup
pub mod Btc
pub mod Send
pub mod Receive
pub mod ChainSend
pub mod ChainReceive
use breez_sdk_liquid.Base.{
  ℕ, String, Bool, not, Option, some, none, List, [], ◌∷◌, map, if◌then◌else◌, is_some, filter,
}
use breez_sdk_liquid.Base.Int.{ℤ, pos, ltb_ℤ, sum_ℤ}
use breez_sdk_liquid.Base.Text.{str_eq}

pub record WalletTx : Type 0 where
  pub txid : String
  -- by asset id
  pub balance : List (String × ℤ)
  pub timestamp : Option ℕ
  -- the script of each output that the wallet owns
  pub outputs : List (Option String)

-- `HashMap::get`
module _ {ℓ} {V : Type ℓ} where
  abbrev pub get : String → List (String × V) → Option V
  get k [] = none
  get k ((j, v) ∷ m) = if str_eq j k then some v else get k m

  abbrev pub contains_key : String → List (String × V) → Bool
  contains_key k m = is_some (get k m)

pub record TxMap : Type 0 where
  pub outgoing_tx_map : List (String × WalletTx)
  pub incoming_tx_map : List (String × WalletTx)

abbrev pub snd_ℤ : String × ℤ → ℤ
snd_ℤ (a, v) = v

abbrev pub is_outgoing : String × WalletTx → Bool
is_outgoing (k, tx) = ltb_ℤ (sum_ℤ (map snd_ℤ tx.balance)) (pos 0)

unfoldable pub from_raw_tx_map : List (String × WalletTx) → TxMap
unfolding sum_ℤ
from_raw_tx_map raw = record {
  outgoing_tx_map = filter is_outgoing raw;
  incoming_tx_map = filter (λ e. not (is_outgoing e)) raw;
}
