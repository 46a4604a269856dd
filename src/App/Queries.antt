-- ===== src/App/Queries.antt =====
-- internal/app/wallet_ledger_list.go, wallet_get.go and wager_get.go: the reads.
use croupier.Prelude.{ℕ, String, Option, List, ◌||◌, if◌then◌else◌}
use croupier.Prelude.Int.{ℤ, pos, pos_part, leb_ℤ, ltb_ℤ}
use croupier.Values.{Uuid}
use croupier.Wallet.{Wallet}
use croupier.Wallet.Ledger.{LedgerEntry}
use croupier.Wager.{Transaction}
use croupier.Store.Monad.{App}
use croupier.Store.Wallets.{find_wallet}
use croupier.Store.Entries.{list_ledger_entries}
use croupier.Store.Wagers.{find_wager, find_by_key}
use croupier.App.Env.{Env}

abbrev pub default_ledger_list_limit : ℕ
default_ledger_list_limit = 50

-- the limit that `List` passes on
unfoldable pub list_limit : ℤ → ℕ
list_limit limit =
    if leb_ℤ limit (pos 0) || ltb_ℤ (pos default_ledger_list_limit) limit
    then default_ledger_list_limit
    else pos_part limit

module _ (env : Env) where
  -- `WalletLedgerLister.List`
  unfoldable pub list_ledger : Uuid → Option Uuid → ℤ → App (List LedgerEntry)
  unfolding list_limit
  list_ledger wallet_id cursor limit =
      list_ledger_entries env.parse_iso wallet_id cursor (list_limit limit)

  -- `WalletGetter.Get`
  unfoldable pub get_wallet : Uuid → App Wallet
  get_wallet wallet_id = find_wallet env.parse_iso wallet_id

  -- `WagerTransactionGetter.Get`
  unfoldable pub get_transaction : Uuid → App Transaction
  get_transaction id = find_wager env.parse_iso id

  -- `WagerTransactionGetter.GetByProvider`
  unfoldable pub get_transaction_by_provider : String → String → App Transaction
  get_transaction_by_provider provider_id external_id =
      find_by_key env.parse_iso provider_id external_id
