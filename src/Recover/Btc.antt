-- ===== src/Recover/Btc.antt =====
-- Bitcoin transactions as the recovery reads them: `bitcoin::Transaction` is a library's type. The
-- id that `compute_txid` gives is kept as a field.
use breez_sdk_liquid.Base.{ℕ, String, Bool, List, any}
use breez_sdk_liquid.Base.Text.{str_eq}

pub record TxOut : Type 0 where
  pub script_pubkey : String
  pub value : ℕ

pub record BtcTx : Type 0 where
  pub txid : String
  pub output : List TxOut

-- An output of the transaction pays to the script.
abbrev pub pays_to : String → BtcTx → Bool
pays_to script tx = any (λ (out : TxOut). str_eq out.script_pubkey script) tx.output
