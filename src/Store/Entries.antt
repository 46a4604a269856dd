-- ===== src/Store/Entries.antt =====
-- internal/postgres/wallet_repository.go: the append-only wallet_ledger_entries table, and its
-- constraints.
use croupier.Prelude.{
  ℕ, String, Bool, false, ◌&&◌, ◌||◌, ◌==◌, ltb, Option, none, some, List, [], ◌∷◌, ◌++◌, find,
  take, if◌then◌else◌,
}
use croupier.Prelude.Int.{ℤ, pos, ◌+ℤ◌, ◌-ℤ◌, ltb_ℤ, leb_ℤ, eqb_ℤ}
use croupier.Errors.{Error, Result, ok, err, ledger_entry_not_found, ◌>>=◌}
use croupier.Values.{micros, Uuid}
use croupier.Money.{from_minor_units}
use croupier.Wallet.Ledger.{LedgerEntry, Direction, debit, credit, other, from_persistence}
use croupier.Store.Tables.{Db, WalletRow, LedgerRow}
use croupier.Store.Monad.{App, query, exec}
use croupier.Store.Wallets.{constraint_violation, wallet_with_id}

abbrev pub ledger_row : LedgerEntry → LedgerRow
ledger_row e = record {
  id = e.id;
  wallet_id = e.wallet_id;
  transaction_id = e.transaction_id;
  direction = e.direction;
  amount = e.amount.amount;
  balance_before = e.balance_before.amount;
  balance_after = e.balance_after.amount;
  created_at = micros e.created_at;
}

-- `wallet_ledger_entries_balance_consistent`, with the CHECK on the direction
abbrev pub is_consistent : Direction → ℤ → ℤ → ℤ → Bool
is_consistent debit amount before after = eqb_ℤ after (before -ℤ amount)
is_consistent credit amount before after = eqb_ℤ after (before +ℤ amount)
is_consistent (other s) amount before after = false

-- the other CHECK constraints of wallet_ledger_entries
abbrev ledger_checks : LedgerRow → Bool
ledger_checks r =
    ltb_ℤ (pos 0) r.amount
    && leb_ℤ (pos 0) r.balance_before
    && leb_ℤ (pos 0) r.balance_after
    && is_consistent r.direction r.amount r.balance_before r.balance_after

-- the primary key and the unique constraint
abbrev collides : LedgerRow → LedgerRow → Bool
collides new r =
    r.id == new.id || r.wallet_id == new.wallet_id && r.transaction_id == new.transaction_id

abbrev append_row : LedgerRow → Option WalletRow → Option LedgerRow → Db → Result Db
append_row new none duplicate db = err constraint_violation
append_row new (some w) (some duplicate) db = err constraint_violation
append_row new (some w) none db = ok (record db { ledger = db.ledger ++ new ∷ [] })

unfoldable pub store_ledger_entry : LedgerEntry → Db → Result Db
store_ledger_entry e db =
    let new = ledger_row e in
    if ledger_checks new
    then append_row new (wallet_with_id new.wallet_id db.wallets) (find (collides new) db.ledger) db
    else err constraint_violation

-- `SaveLedgerEntry`
unfoldable pub save_ledger_entry : LedgerEntry → App (Unit {0})
save_ledger_entry e = exec (store_ledger_entry e)

-- `scanLedgerEntry`, with the currency of the joined wallet
unfoldable pub scan_ledger_entry : (String → Bool) → String → LedgerRow → Result LedgerEntry
scan_ledger_entry parse_iso currency r = do
  amount ← from_minor_units parse_iso currency r.amount
  before ← from_minor_units parse_iso currency r.balance_before
  after ← from_minor_units parse_iso currency r.balance_after
  ok (
      from_persistence r.id r.wallet_id r.transaction_id r.direction amount before after
        r.created_at)

abbrev is_of_transaction : Uuid → LedgerRow → Bool
is_of_transaction id r = r.transaction_id == id

-- the row of the join, scanned
abbrev join_wallet : (String → Bool) → LedgerRow → Option WalletRow → Result LedgerEntry
join_wallet parse_iso r none = err (Error.app ledger_entry_not_found)
join_wallet parse_iso r (some w) = scan_ledger_entry parse_iso w.currency r

abbrev entry_or_not_found : (String → Bool) → Db → Option LedgerRow → Result LedgerEntry
entry_or_not_found parse_iso db none = err (Error.app ledger_entry_not_found)
entry_or_not_found parse_iso db (some r) =
    join_wallet parse_iso r (wallet_with_id r.wallet_id db.wallets)

abbrev pub select_ledger_entry : (String → Bool) → Uuid → Db → Result LedgerEntry
select_ledger_entry parse_iso id db =
    entry_or_not_found parse_iso db (find (is_of_transaction id) db.ledger)

-- `FindLedgerEntryByTransactionID`
unfoldable pub find_ledger_entry : (String → Bool) → Uuid → App LedgerEntry
find_ledger_entry parse_iso id = query (select_ledger_entry parse_iso id)

-- `(created_at, id)` in the order of the index
abbrev precedes : LedgerRow → LedgerRow → Bool
precedes a b = ltb a.created_at b.created_at || a.created_at == b.created_at && ltb a.id b.id

unfoldable pub insert_row : LedgerRow → List LedgerRow → List LedgerRow
insert_row r [] = r ∷ []
insert_row r (s ∷ rs) = if precedes s r then s ∷ insert_row r rs else r ∷ s ∷ rs

-- `ORDER BY le.created_at, le.id`
unfoldable pub in_order : List LedgerRow → List LedgerRow
unfolding insert_row
in_order [] = []
in_order (r ∷ rs) = insert_row r (in_order rs)

-- `WHERE le.wallet_id = $1`
unfoldable pub rows_of : Uuid → List LedgerRow → List LedgerRow
rows_of id [] = []
rows_of id (r ∷ rs) = let rest = rows_of id rs in if r.wallet_id == id then r ∷ rest else rest

-- the loop over the rows
unfoldable pub scan_entries : (String → Bool) → String → List LedgerRow → Result (List LedgerEntry)
unfolding scan_ledger_entry
scan_entries parse_iso currency [] = ok []
scan_entries parse_iso currency (r ∷ rs) = do
  e ← scan_ledger_entry parse_iso currency r
  es ← scan_entries parse_iso currency rs
  ok (e ∷ es)

-- With no wallet the join has no rows.
abbrev entries_of : (String → Bool) → Option WalletRow → List LedgerRow → Result (List LedgerEntry)
entries_of parse_iso none rows = ok []
entries_of parse_iso (some w) rows = scan_entries parse_iso w.currency rows

abbrev pub select_all_entries : (String → Bool) → Uuid → Db → Result (List LedgerEntry)
select_all_entries parse_iso id db =
    entries_of parse_iso (wallet_with_id id db.wallets) (in_order (rows_of id db.ledger))

-- `AllLedgerEntries`
unfoldable pub all_ledger_entries : (String → Bool) → Uuid → App (List LedgerEntry)
unfolding scan_entries in_order rows_of
all_ledger_entries parse_iso id = query (select_all_entries parse_iso id)

-- `(created_at, id) > (SELECT … WHERE id = $2)`; against no row the comparison is never true
pub rows_after : Option LedgerRow → List LedgerRow → List LedgerRow
rows_after none rs = []
rows_after (some c) [] = []
rows_after (some c) (r ∷ rs) =
    let rest = rows_after (some c) rs in if precedes c r then r ∷ rest else rest

abbrev has_entry_id : Uuid → LedgerRow → Bool
has_entry_id id r = r.id == id

abbrev from_cursor : Option Uuid → List LedgerRow → List LedgerRow → List LedgerRow
from_cursor none ledger rows = rows
from_cursor (some id) ledger rows = rows_after (find (has_entry_id id) ledger) rows

abbrev pub select_entries :
    (String → Bool) → Uuid → Option Uuid → ℕ → Db → Result (List LedgerEntry)
select_entries parse_iso id cursor limit db =
    entries_of parse_iso (wallet_with_id id db.wallets)
      (take limit (from_cursor cursor db.ledger (in_order (rows_of id db.ledger))))

-- `ListLedgerEntries`
unfoldable pub list_ledger_entries :
    (String → Bool) → Uuid → Option Uuid → ℕ → App (List LedgerEntry)
unfolding scan_entries in_order rows_of rows_after
list_ledger_entries parse_iso id cursor limit = query (select_entries parse_iso id cursor limit)
