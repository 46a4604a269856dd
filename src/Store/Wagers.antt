-- ===== src/Store/Wagers.antt =====
-- internal/postgres/wager_repository.go, with the constraints of the wager_transactions table.
use croupier.Prelude.{
  String, Bool, true, false, not, ◌&&◌, ◌||◌, ◌==◌, str_eq, Option, none, some, List, [], ◌∷◌, ◌++◌,
  find, if◌then◌else◌,
}
use croupier.Errors.{
  Error, Result, ok, err, wager_transaction_not_found, wager_transaction_already_exists, ◌>>=◌,
}
use croupier.Values.{micros, Uuid, Digest, is_some}
use croupier.Money.{from_minor_units}
use croupier.Wager.{
  Transaction, Kind, opening, other, HashInput, payload_hash, is_reversal, is_processed,
}
use croupier.Wager.Persistence.{transaction_from_persistence}
use croupier.Store.Tables.{Db, WagerRow, WalletRow}
use croupier.Store.Monad.{App, query, exec}
use croupier.Store.Wallets.{constraint_violation, wallet_with_id}

-- `nullableString`
abbrev pub nullable_string : String → Option String
nullable_string s = if str_eq s "" then none else some s

-- `stringOrEmpty`
abbrev pub string_or_empty : Option String → String
string_or_empty none = ""
string_or_empty (some s) = s

-- the values of the INSERT
unfoldable pub wager_row : (HashInput → Digest) → Transaction → WagerRow
wager_row digest tx = record {
  id = tx.id;
  status = tx.status;
  kind = tx.kind;
  provider_id = nullable_string tx.provider_id;
  external_transaction_id = nullable_string tx.external_transaction_id;
  round_id = nullable_string tx.round_id;
  game_id = nullable_string tx.game_id;
  player_id = tx.player_id;
  wallet_id = tx.wallet_id;
  currency = tx.amount.currency;
  amount = tx.amount.amount;
  reference_external_transaction_id = tx.reference_external_transaction_id;
  reference_transaction_id = tx.reference_transaction_id;
  failure_code = nullable_string tx.failure_code;
  payload_hash = payload_hash digest tx;
  created_at = micros tx.created_at;
  updated_at = micros tx.updated_at;
  pending_reference_attempts = 0;
  pending_reference_next_retry_at = none;
}

-- `scanWagerTransaction`
unfoldable pub scan_wager : (String → Bool) → WagerRow → Result Transaction
scan_wager parse_iso r = do
  amount ← from_minor_units parse_iso r.currency r.amount
  ok (
      transaction_from_persistence (record {
        id = r.id;
        status = r.status;
        external_transaction_id = string_or_empty r.external_transaction_id;
        provider_id = string_or_empty r.provider_id;
        player_id = r.player_id;
        wallet_id = r.wallet_id;
        round_id = string_or_empty r.round_id;
        game_id = string_or_empty r.game_id;
        kind = r.kind;
        amount = amount;
        reference_external_transaction_id = r.reference_external_transaction_id;
        reference_transaction_id = r.reference_transaction_id;
        failure_code = string_or_empty r.failure_code;
        created_at = r.created_at;
        updated_at = r.updated_at;
      }))

abbrev scan_or_not_found : (String → Bool) → Option WagerRow → Result Transaction
scan_or_not_found parse_iso none = err (Error.app wager_transaction_not_found)
scan_or_not_found parse_iso (some r) = scan_wager parse_iso r

abbrev has_wager_id : Uuid → WagerRow → Bool
has_wager_id id r = r.id == id

abbrev pub wager_with_id : Uuid → List WagerRow → Option WagerRow
wager_with_id id rs = find (has_wager_id id) rs

-- `column = $n`: against NULL it is never true
abbrev pub is_text : Option String → String → Bool
is_text none s = false
is_text (some t) s = str_eq t s

abbrev pub has_key : String → String → WagerRow → Bool
has_key provider_id external_id r =
    is_text r.provider_id provider_id && is_text r.external_transaction_id external_id

abbrev pub has_reference : Uuid → Option Uuid → Bool
has_reference id none = false
has_reference id (some r) = r == id

abbrev pub reverses : Uuid → WagerRow → Bool
reverses id r =
    has_reference id r.reference_transaction_id && is_reversal r.kind && is_processed r.status

abbrev pub select_wager : (String → Bool) → Uuid → Db → Result Transaction
select_wager parse_iso id db = scan_or_not_found parse_iso (wager_with_id id db.wagers)

abbrev pub select_by_key : (String → Bool) → String → String → Db → Result Transaction
select_by_key parse_iso provider_id external_id db =
    scan_or_not_found parse_iso (find (has_key provider_id external_id) db.wagers)

abbrev pub select_reversal : (String → Bool) → Uuid → Db → Result Transaction
select_reversal parse_iso id db = scan_or_not_found parse_iso (find (reverses id) db.wagers)

-- `FindByID`
unfoldable pub find_wager : (String → Bool) → Uuid → App Transaction
find_wager parse_iso id = query (select_wager parse_iso id)

-- `FindByProviderAndExternalID`
unfoldable pub find_by_key : (String → Bool) → String → String → App Transaction
find_by_key parse_iso provider_id external_id =
    query (select_by_key parse_iso provider_id external_id)

-- `FindReversal`
unfoldable pub find_reversal : (String → Bool) → Uuid → App Transaction
find_reversal parse_iso id = query (select_reversal parse_iso id)

-- the CHECK constraints; the empty text is stored as NULL
abbrev wager_checks : WagerRow → Bool
wager_checks r = elim r.kind [
  | opening ↦ true
  | other s ↦ false
  | _ ↦
      is_some r.provider_id
      && is_some r.external_transaction_id
      && is_some r.round_id
      && is_some r.game_id
]

abbrev pub is_opening : Kind → Bool
is_opening opening = true
is_opening _ = false

-- `wager_transactions_provider_external_unique`: NULL differs from everything
abbrev same_key : Option String → Option String → WagerRow → Bool
same_key (some provider) (some external) r = has_key provider external r
same_key (some provider) none r = false
same_key none external r = false

-- `wager_transactions_single_opening_per_wallet_idx`
abbrev same_opening : WagerRow → WagerRow → Bool
same_opening new r = is_opening new.kind && is_opening r.kind && r.wallet_id == new.wallet_id

-- `REFERENCES wager_transactions (id)`; a row may refer to itself
abbrev pub has_referent : Uuid → Option Uuid → List WagerRow → Bool
has_referent self none rs = true
has_referent self (some id) rs = self == id || is_some (wager_with_id id rs)

-- `ON CONFLICT (id) DO UPDATE SET`
abbrev pub update_wager : WagerRow → WagerRow → WagerRow
update_wager new old = record old {
  status = new.status;
  reference_transaction_id = new.reference_transaction_id;
  failure_code = new.failure_code;
  updated_at = new.updated_at;
}

-- the row with the id of `new` is updated
unfoldable pub replace_wager : WagerRow → List WagerRow → List WagerRow
replace_wager new [] = []
replace_wager new (r ∷ rs) =
    if r.id == new.id then update_wager new r ∷ rs else r ∷ replace_wager new rs

abbrev insert_wager : WagerRow → List WalletRow → List WagerRow → Result (List WagerRow)
insert_wager new ws rs =
    if is_some (find (same_key new.provider_id new.external_transaction_id) rs)
    then err (Error.app wager_transaction_already_exists)
    else if is_some (find (same_opening new) rs) || not (is_some (wallet_with_id new.wallet_id ws))
    then err constraint_violation
    else ok (rs ++ new ∷ [])

abbrev insert_or_update :
    WagerRow → Option WagerRow → List WalletRow → List WagerRow → Result (List WagerRow)
insert_or_update new (some old) ws rs = ok (replace_wager new rs)
insert_or_update new none ws rs = insert_wager new ws rs

unfoldable pub upsert_wager : WagerRow → List WalletRow → List WagerRow → Result (List WagerRow)
upsert_wager new ws rs =
    if wager_checks new && has_referent new.id new.reference_transaction_id rs
    then insert_or_update new (wager_with_id new.id rs) ws rs
    else err constraint_violation

abbrev pub store_wager : (HashInput → Digest) → Transaction → Db → Result Db
store_wager digest tx db = do
  rs ← upsert_wager (wager_row digest tx) db.wallets db.wagers
  ok (record db { wagers = rs })

-- `Save`
unfoldable pub save_wager : (HashInput → Digest) → Transaction → App (Unit {0})
save_wager digest tx = exec (store_wager digest tx)
