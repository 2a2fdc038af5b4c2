-- ===== src/Thrown.antt =====
-- What the modelled code throws: `MoneyError` (protocol/money.ts), `LedgerError`
-- (server/ledger/ledger.ts) and the plain errors of the stores.
use dwell.Base.{ℕ}
use dwell.Base.Int.{ℤ}

pub data Thrown : Type 0 where
  -- `MoneyError`
  int64_overflow : ℤ → Thrown
  amount_not_positive : ℤ → Thrown
  invalid_amount_string : Thrown
  negative_split : Thrown
  bad_bps : ℤ → Thrown
  negative_cpm : Thrown
  -- `LedgerError`, code `DWL_5006`
  deposit_not_positive : Thrown
  negative_rate : Thrown
  payout_not_positive : Thrown
  would_go_negative : Thrown
  nothing_to_reverse : Thrown
  unbalanced_group : ℤ → Thrown
  -- `Error`
  owner_has_colon : Thrown
  partial_idempotency : ℕ → ℕ → Thrown
  op_index_missing : Thrown
  -- `TypeError`: a field of `undefined`
  undefined_read : Thrown
