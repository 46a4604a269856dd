-- ===== src/Wallet/Ledger.antt =====
-- internal/wallet/ledger_entry.go: one movement of a wallet, with the balance on both sides of it.
use croupier.Prelude.{String, Bool, true, not, ◌||◌, ◌==◌}
use croupier.Errors.{
  Error, WalletError, Result, ok, err, invalid_direction, negative_balance, inconsistent_balance,
  non_positive_amount, ◌>>=◌, ◌>>◌, fail_if,
}
use croupier.Values.{Uuid, nil_uuid, Time}
use croupier.Money.{Money, add, subtract, equal, is_negative, is_positive}

-- `Direction` is a string type: `other` is any text that is neither constant.
pub data Direction : Type 0 where
  debit credit : Direction
  other : String → Direction

pub record LedgerEntry : Type 0 where
  pub id : Uuid
  pub wallet_id : Uuid
  pub transaction_id : Uuid
  pub direction : Direction
  pub amount : Money
  pub balance_before : Money
  pub balance_after : Money
  pub created_at : Time

pub record NewLedgerEntryInput : Type 0 where
  pub wallet_id : Uuid
  pub transaction_id : Uuid
  pub direction : Direction
  pub amount : Money
  pub balance_before : Money
  pub balance_after : Money

-- the `switch` on the direction
unfoldable pub expected_after : Direction → Money → Money → Result Money
expected_after debit before amount = subtract before amount
expected_after credit before amount = add before amount
expected_after (other s) before amount = err (Error.wallet invalid_direction)

-- `ok, err := expectedAfter.Equal(after); err != nil || !ok`
abbrev differs : Result Bool → Bool
differs (ok b) = not b
differs (err e) = true

unfoldable pub new_ledger_entry : Uuid → Time → NewLedgerEntryInput → Result LedgerEntry
unfolding expected_after
new_ledger_entry fresh now input = do
  fail_if (input.wallet_id == nil_uuid || input.transaction_id == nil_uuid)
      (Error.wallet WalletError.invalid_input)
  fail_if (not (is_positive input.amount)) (Error.wallet non_positive_amount)
  fail_if (is_negative input.balance_before || is_negative input.balance_after)
      (Error.wallet negative_balance)
  expected ← expected_after input.direction input.balance_before input.amount
  fail_if (differs (equal expected input.balance_after)) (Error.wallet inconsistent_balance)
  ok (record {
    id = fresh;
    wallet_id = input.wallet_id;
    transaction_id = input.transaction_id;
    direction = input.direction;
    amount = input.amount;
    balance_before = input.balance_before;
    balance_after = input.balance_after;
    created_at = now;
  })

-- `LedgerEntryFromPersistence`
abbrev pub from_persistence :
    Uuid → Uuid → Uuid → Direction → Money → Money → Money → Time → LedgerEntry
from_persistence id wallet_id transaction_id direction amount before after created_at = record {
  id = id;
  wallet_id = wallet_id;
  transaction_id = transaction_id;
  direction = direction;
  amount = amount;
  balance_before = before;
  balance_after = after;
  created_at = created_at;
}
