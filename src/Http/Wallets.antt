-- ===== src/Http/Wallets.antt =====
-- internal/httpapi/wallets.go: the handlers of the wallet routes.
use croupier.Prelude.{String, ◌==◌, str_eq, Option, none, some, map, if◌then◌else◌}
use croupier.Prelude.Int.{ℤ, pos, ltb_ℤ}
use croupier.Errors.{Result, ok, err}
use croupier.Values.{Uuid, nil_uuid}
use croupier.Wallet.{Wallet}
use croupier.Wallet.Ledger.{LedgerEntry}
use croupier.App.Env.{Env}
use croupier.App.Create.{create}
use croupier.App.Queries.{get_wallet, list_ledger}
use croupier.App.Reconcile.{ReconciliationResult, reconcile}
use croupier.Http.{
  WalletResponse, LedgerEntryResponse, ReconciliationResponse, CreateWalletRequest, Request, Web,
  Handler, write_json, handling, message, wallet_body, ledger_body, reconciliation_body,
}
use croupier.Http.Failures.{write_error}

-- `newWalletResponse`
unfoldable pub new_wallet_response : Web → Wallet → WalletResponse
new_wallet_response web w = record {
  id = w.id;
  player_id = w.player_id;
  balance = w.balance;
  version = w.version;
  created_at = web.format_time w.created_at;
  updated_at = web.format_time w.updated_at;
}

-- `newLedgerEntryResponse`
unfoldable pub new_ledger_entry_response : Web → LedgerEntry → LedgerEntryResponse
new_ledger_entry_response web e = record {
  id = e.id;
  wallet_id = e.wallet_id;
  transaction_id = e.transaction_id;
  direction = e.direction;
  amount = e.amount;
  balance_before = e.balance_before;
  balance_after = e.balance_after;
  created_at = web.format_time e.created_at;
}

abbrev new_reconciliation_response : ReconciliationResult → ReconciliationResponse
new_reconciliation_response r = record {
  wallet_id = r.wallet_id;
  stored_balance = r.stored_balance;
  calculated_balance = r.calculated_balance;
  difference = r.difference;
  consistent = r.consistent;
  checked_entries = r.entries_checked;
}

-- `uuid.Parse` of a path value, and the answer where it fails
abbrev pub with_uuid : String → Result Uuid → (Uuid → Handler) → Handler
with_uuid problem (ok id) next = next id
with_uuid problem (err e) next = write_json 400 (message problem)

module _ (env : Env) (web : Web) (r : Request) (correlation_id : String) where
  unfoldable pub create_decoded : Result CreateWalletRequest → Handler
  create_decoded (err e) = write_json 400 (message "malformed request body")
  create_decoded (ok req) =
      if req.player_id == nil_uuid
      then write_json 400 (message "playerId is required")
      else handling
          (create env (record {
            player_id = req.player_id;
            initial_balance = req.initial_balance;
            correlation_id = correlation_id;
          }))
          write_error (λ created. write_json 201 (wallet_body (new_wallet_response web created)))

  -- `createWallet`
  unfoldable pub create_wallet : Handler
  unfolding create_decoded
  create_wallet = create_decoded (web.decode_create r.content)

module _ (env : Env) (web : Web) where
  -- `getWallet`
  unfoldable pub get_wallet_by_id : String → Handler
  get_wallet_by_id path_id = with_uuid "invalid walletId" (web.parse_uuid path_id) λ wallet_id.
      handling (get_wallet env wallet_id) write_error
        λ got. write_json 200 (wallet_body (new_wallet_response web got))

  -- `reconcileWallet`
  unfoldable pub reconcile_wallet : String → Handler
  reconcile_wallet path_id = with_uuid "invalid walletId" (web.parse_uuid path_id) λ wallet_id.
      handling (reconcile env wallet_id) write_error
        λ result. write_json 200 (reconciliation_body (new_reconciliation_response result))

  -- the entries from a cursor on, and the response
  unfoldable pub list_from : Uuid → Option Uuid → ℤ → Handler
  list_from wallet_id cursor limit =
      handling (list_ledger env wallet_id cursor limit) write_error
        λ entries. write_json 200 (ledger_body (map (new_ledger_entry_response web) entries))

  unfoldable pub with_limit : Uuid → Option Uuid → Result ℤ → Handler
  unfolding list_from
  with_limit wallet_id cursor (err e) = write_json 400 (message "invalid limit")
  with_limit wallet_id cursor (ok parsed) =
      if ltb_ℤ parsed (pos 0)
      then write_json 400 (message "invalid limit")
      else list_from wallet_id cursor parsed

  unfoldable pub limited : Uuid → Option Uuid → String → Handler
  unfolding with_limit
  limited wallet_id cursor raw =
      if str_eq raw ""
      then list_from wallet_id cursor (pos 0)
      else with_limit wallet_id cursor (web.atoi raw)

  unfoldable pub with_cursor : Uuid → String → Result Uuid → Handler
  unfolding limited
  with_cursor wallet_id limit (err e) = write_json 400 (message "invalid cursor")
  with_cursor wallet_id limit (ok parsed) = limited wallet_id (some parsed) limit

  -- `listWalletLedger`
  unfoldable pub list_wallet_ledger : String → String → String → Handler
  unfolding with_cursor
  list_wallet_ledger path_id cursor limit =
      with_uuid "invalid walletId" (web.parse_uuid path_id) λ wallet_id.
        if str_eq cursor ""
        then limited wallet_id none limit
        else with_cursor wallet_id limit (web.parse_uuid cursor)
