-- ===== src/Model/Errors.antt =====
-- lib/core/src/error.rs: the variants of `PaymentError` that the modelled code returns. The texts
-- that some variants carry are left out; nothing in the code reads them.
pub data PaymentError : Type 0 where
  already_claimed payment_in_progress invalid_preimage persist_error : PaymentError
  generic invalid_invoice : PaymentError

-- `anyhow::Error`, whose text is left out.
pub data AnyError : Type 0 where
  anyhow : AnyError
