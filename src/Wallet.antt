-- ===== src/Wallet.antt =====
-- internal/wallet/wallet.go: a wallet with its balance and its version. A method that mutates
-- `*Wallet` returns the new wallet; an error leaves the wallet as it was.
pub mod Ledger
pub mod Balance
use croupier.Prelude.{Bool, not}
use croupier.Prelude.Int.{ℤ, pos}
use croupier.Prelude.Int64.{add64}
use croupier.Errors.{
  Error, Result, ok, insufficient_balance, negative_initial_balance, non_positive_amount, ◌>>=◌,
  ◌>>◌, fail_if,
}
use croupier.Values.{Uuid, Time}
use croupier.Money.{Money, add, subtract, is_negative, is_positive}

pub record Wallet : Type 0 where
  pub id : Uuid
  pub player_id : Uuid
  pub version : ℤ
  pub balance : Money
  pub created_at : Time
  pub updated_at : Time

-- `New`; `fresh` is what `uuid.New` returns and `now` what `time.Now` returns
unfoldable pub new : Uuid → Time → Uuid → Money → Result Wallet
new fresh now player_id initial_balance = do
  fail_if (is_negative initial_balance) (Error.wallet negative_initial_balance)
  ok (record {
    id = fresh;
    player_id = player_id;
    version = pos 1;
    balance = initial_balance;
    created_at = now;
    updated_at = now;
  })

-- `FromPersistence`
abbrev pub from_persistence : Uuid → Uuid → ℤ → Money → Time → Time → Wallet
from_persistence id player_id version balance created_at updated_at = record {
  id = id;
  player_id = player_id;
  version = version;
  balance = balance;
  created_at = created_at;
  updated_at = updated_at;
}

unfoldable pub credit : Wallet → Money → Result Wallet
credit w amount = do
  fail_if (not (is_positive amount)) (Error.wallet non_positive_amount)
  balance ← add w.balance amount
  ok (record w { balance = balance; version = add64 w.version (pos 1) })

unfoldable pub debit : Wallet → Money → Result Wallet
debit w amount = do
  fail_if (not (is_positive amount)) (Error.wallet non_positive_amount)
  balance ← subtract w.balance amount
  fail_if (is_negative balance) (Error.wallet insufficient_balance)
  ok (record w { balance = balance; version = add64 w.version (pos 1) })
