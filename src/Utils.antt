-- ===== src/Utils.antt =====
-- lib/core/src/utils/mod.rs: the checks that the swap code shares. Parsing an invoice or a preimage
-- is the work of libraries: they are the fields of `InvoiceLib`.
use breez_sdk_liquid.Base.{ℕ, String, Bool, false, Option, some, none, leb}
use breez_sdk_liquid.Base.Text.{str_eq}
use breez_sdk_liquid.Base.Result.{Result, ok, err, ◌>>=◌, ensure}
use breez_sdk_liquid.Model.Errors.{PaymentError, generic, invalid_invoice, invalid_preimage}

pub record InvoiceLib : Type 0 where
  -- `Preimage::from_str`, and the text of its SHA-256 hash
  pub preimage_sha256 : String → Option String
  -- `Bolt11Invoice::from_str`, and the text of its payment hash
  pub bolt11_payment_hash : String → Option String
  -- `bolt12::decode_invoice`, and the text of its payment hash
  pub bolt12_payment_hash : String → Option String

pub data LockTime : Type 0 where
  blocks : ℕ → LockTime
  seconds : ℕ → LockTime

unfoldable pub is_locktime_expired : LockTime → LockTime → Bool
is_locktime_expired (blocks n) (blocks lock_time) = leb lock_time n
is_locktime_expired (seconds n) (seconds lock_time) = leb lock_time n
is_locktime_expired _ _ = false

module _ (lib : InvoiceLib) where
  open lib use {preimage_sha256, bolt11_payment_hash, bolt12_payment_hash}

  abbrev pub invoice_hash : String → Result PaymentError String
  invoice_hash invoice = elim (bolt11_payment_hash invoice) [
    | some hash ↦ ok hash
    | none ↦ elim (bolt12_payment_hash invoice) [ some hash ↦ ok hash | none ↦ err invalid_invoice ]
  ]

  abbrev pub parse_preimage : String → Result PaymentError String
  parse_preimage preimage = elim (preimage_sha256 preimage) [
    | some hash ↦ ok hash
    | none ↦ err generic
  ]

  unfoldable pub verify_payment_hash : String → String → Result PaymentError (Unit {0})
  verify_payment_hash preimage invoice = do
    preimage_hash ← parse_preimage preimage
    invoice_payment_hash ← invoice_hash invoice
    ensure (str_eq invoice_payment_hash preimage_hash) invalid_preimage
