-- ===== src/Store/RoundTrip.antt =====
-- internal/postgres: what is written to a table is what a scan of the row gives back.
use croupier.Prelude.{String, ◌≡◌, refl, Bool, true, arith, eq_iff}
use croupier.Errors.{ok}
use croupier.Values.{Digest, micros}
use croupier.Money.{from_minor_units}
use croupier.Wallet.{Wallet}
use croupier.Wager.{Transaction, HashInput}
use croupier.Wallet.Ledger.{LedgerEntry}
use croupier.Store.Entries.{scan_ledger_entry, ledger_row}
use croupier.Store.Wallets.{wallet_row, scan_wallet}
use croupier.Store.Wagers.{wager_row, scan_wager, nullable_string, string_or_empty}

-- The empty text goes through NULL.
string_or_empty-nullable_string : (s : String) → string_or_empty (nullable_string s) ≡ s
string_or_empty-nullable_string s = ground (arith, eq_iff s "")

-- A row that was written for a transaction, whose currency the currency library accepts, scans to that
-- transaction, with its two times cut to microseconds.
pub scan_wager-wager_row :
    (parse_iso : String → Bool) (digest : HashInput → Digest) (tx : Transaction)
    → parse_iso tx.amount.currency ≡ true
    → scan_wager parse_iso (wager_row digest tx)
      ≡ ok (record tx { created_at = micros tx.created_at; updated_at = micros tx.updated_at })
unfolding scan_wager wager_row from_minor_units
scan_wager-wager_row parse_iso digest tx h =
    rw
      (
        h,
        string_or_empty-nullable_string tx.external_transaction_id,
        string_or_empty-nullable_string tx.provider_id,
        string_or_empty-nullable_string tx.round_id,
        string_or_empty-nullable_string tx.game_id,
        string_or_empty-nullable_string tx.failure_code,
      )
      refl

-- A row that was written for a wallet, whose currency the currency library accepts, scans to that
-- wallet, with its two times cut to microseconds.
pub scan_wallet-wallet_row :
    (parse_iso : String → Bool) (w : Wallet)
    → parse_iso w.balance.currency ≡ true
    → scan_wallet parse_iso (wallet_row w)
      ≡ ok (record w { created_at = micros w.created_at; updated_at = micros w.updated_at })
unfolding scan_wallet from_minor_units
scan_wallet-wallet_row parse_iso w h = rw h refl

-- A row that was written for a ledger entry scans to that entry, with its time cut to microseconds, in
-- a currency that the currency library accepts and that is the one of the wallet and of all three
-- amounts of the entry.
pub scan_ledger_entry-ledger_row :
    (parse_iso : String → Bool) (currency : String) (e : LedgerEntry)
    → parse_iso currency ≡ true
    → e.amount.currency ≡ currency
    → e.balance_before.currency ≡ currency
    → e.balance_after.currency ≡ currency
    → scan_ledger_entry parse_iso currency (ledger_row e)
      ≡ ok (record e { created_at = micros e.created_at })
unfolding scan_ledger_entry from_minor_units
scan_ledger_entry-ledger_row parse_iso currency e accepted a b c = ground arith
