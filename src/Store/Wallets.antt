-- ===== src/Store/Wallets.antt =====
-- internal/postgres/wallet_repository.go: the wallets table and its constraints. `FOR UPDATE` has no
-- effect in one caller's sequence of calls.
use croupier.Prelude.{
  String, Bool, ◌&&◌, ◌==◌, str_eq, Option, none, some, List, [], ◌∷◌, ◌++◌, find, if◌then◌else◌,
}
use croupier.Prelude.Int.{pos, leb_ℤ}
use croupier.Errors.{Error, Result, ok, err, wallet_not_found, wallet_already_exists, ◌>>=◌}
use croupier.Values.{micros, Uuid}
use croupier.Money.{from_minor_units}
use croupier.Wallet.{Wallet, from_persistence}
use croupier.Store.Tables.{Db, WalletRow}
use croupier.Store.Monad.{App, query, exec}

-- the error of a violated constraint that the code does not recognise
abbrev pub constraint_violation : Error
constraint_violation = Error.backend 1

abbrev pub wallet_row : Wallet → WalletRow
wallet_row w = record {
  id = w.id;
  player_id = w.player_id;
  currency = w.balance.currency;
  balance = w.balance.amount;
  version = w.version;
  created_at = micros w.created_at;
  updated_at = micros w.updated_at;
}

-- `scanWallet`
unfoldable pub scan_wallet : (String → Bool) → WalletRow → Result Wallet
scan_wallet parse_iso r = do
  balance ← from_minor_units parse_iso r.currency r.balance
  ok (from_persistence r.id r.player_id r.version balance r.created_at r.updated_at)

abbrev has_wallet_id : Uuid → WalletRow → Bool
has_wallet_id id r = r.id == id

abbrev pub wallet_with_id : Uuid → List WalletRow → Option WalletRow
wallet_with_id id ws = find (has_wallet_id id) ws

abbrev scan_or_not_found : (String → Bool) → Option WalletRow → Result Wallet
scan_or_not_found parse_iso none = err (Error.app wallet_not_found)
scan_or_not_found parse_iso (some r) = scan_wallet parse_iso r

abbrev pub select_wallet : (String → Bool) → Uuid → Db → Result Wallet
select_wallet parse_iso id db = scan_or_not_found parse_iso (wallet_with_id id db.wallets)

-- `FindByID`
unfoldable pub find_wallet : (String → Bool) → Uuid → App Wallet
find_wallet parse_iso id = query (select_wallet parse_iso id)

abbrev owns : Uuid → String → WalletRow → Bool
owns player_id currency r = r.player_id == player_id && str_eq r.currency currency

abbrev pub select_wallet_of : (String → Bool) → Uuid → String → Db → Result Wallet
select_wallet_of parse_iso player_id currency db =
    scan_or_not_found parse_iso (find (owns player_id currency) db.wallets)

-- `FindByPlayerAndCurrency`
unfoldable pub find_wallet_of : (String → Bool) → Uuid → String → App Wallet
find_wallet_of parse_iso player_id currency = query (select_wallet_of parse_iso player_id currency)

-- the CHECK constraints of wallets
abbrev wallet_checks : WalletRow → Bool
wallet_checks r = leb_ℤ (pos 0) r.balance && leb_ℤ (pos 1) r.version

-- `ON CONFLICT (id) DO UPDATE SET`
abbrev pub update_wallet : WalletRow → WalletRow → WalletRow
update_wallet new old = record old {
  balance = new.balance;
  version = new.version;
  updated_at = new.updated_at;
}

-- the row with the id of `new` is updated
unfoldable pub replace_wallet : WalletRow → List WalletRow → List WalletRow
replace_wallet new [] = []
replace_wallet new (r ∷ rs) =
    if r.id == new.id then update_wallet new r ∷ rs else r ∷ replace_wallet new rs

abbrev insert_or_update :
    WalletRow → Option WalletRow → Option WalletRow → List WalletRow → Result (List WalletRow)
insert_or_update new (some old) duplicate ws = ok (replace_wallet new ws)
insert_or_update new none (some duplicate) ws = err (Error.app wallet_already_exists)
insert_or_update new none none ws = ok (ws ++ new ∷ [])

unfoldable pub upsert_wallet : WalletRow → List WalletRow → Result (List WalletRow)
upsert_wallet new ws =
    if wallet_checks new
    then insert_or_update new (wallet_with_id new.id ws) (find (owns new.player_id new.currency) ws)
        ws
    else err constraint_violation

abbrev pub store_wallet : Wallet → Db → Result Db
store_wallet w db = do ws ← upsert_wallet (wallet_row w) db.wallets; ok (record db { wallets = ws })

-- `Save`
unfoldable pub save_wallet : Wallet → App (Unit {0})
save_wallet w = exec (store_wallet w)
