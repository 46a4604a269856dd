-- ===== src/Http.antt =====
-- internal/httpapi: requests, responses and handlers. The patterns of the `ServeMux` of net/http are
-- `Route`s that carry their path values; a request that matches none never reaches this code. A handler
-- answers, and never fails.
pub mod Handles
pub mod Failures
pub mod Guards
pub mod Wallets
pub mod Wagering
pub mod Server
use croupier.Prelude.{ℕ, String, Bool, Option, none, List}
use croupier.Prelude.Int.{ℤ}
use croupier.Errors.{Error, Result, ok, err}
use croupier.Values.{Uuid, Time}
use croupier.Money.{Money}
use croupier.Wallet.Ledger.{Direction}
use croupier.Wager.{Kind, TxStatus}
use croupier.Auth.{IdTokens}
use croupier.Store.Monad.{World, App}

-- `walletResponse`
pub record WalletResponse : Type 0 where
  pub id : Uuid
  pub player_id : Uuid
  pub balance : Money
  pub version : ℤ
  pub created_at : String
  pub updated_at : String

-- `reconciliationResponse`
pub record ReconciliationResponse : Type 0 where
  pub wallet_id : Uuid
  pub stored_balance : Money
  pub calculated_balance : Money
  pub difference : Money
  pub consistent : Bool
  pub checked_entries : ℕ

-- `ledgerEntryResponse`
pub record LedgerEntryResponse : Type 0 where
  pub id : Uuid
  pub wallet_id : Uuid
  pub transaction_id : Uuid
  pub direction : Direction
  pub amount : Money
  pub balance_before : Money
  pub balance_after : Money
  pub created_at : String

-- `wagerTransactionResponse`
pub record WagerTransactionResponse : Type 0 where
  pub id : Uuid
  pub status : TxStatus
  pub kind : Kind
  pub provider_id : String
  pub external_transaction_id : String
  pub player_id : Uuid
  pub wallet_id : Uuid
  pub round_id : String
  pub game_id : String
  pub money : Money
  pub reference_external_transaction_id : Option String
  pub reference_transaction_id : Option Uuid
  pub failure_code : String
  pub created_at : String
  pub updated_at : String

-- `submitWagerTransactionResponse`
pub record SubmitResponse : Type 0 where
  pub transaction_id : Uuid
  pub status : TxStatus
  pub balance : Money
  pub idempotent_replay : Bool
  pub failure_code : String

-- `createWalletRequest`
pub record CreateWalletRequest : Type 0 where
  pub player_id : Uuid
  pub initial_balance : Money

-- `submitWagerTransactionRequest`
pub record SubmitRequest : Type 0 where
  pub external_transaction_id : String
  pub player_id : Uuid
  pub wallet_id : Uuid
  pub round_id : String
  pub game_id : String
  pub kind : Kind
  pub money : Money
  pub reference_external_transaction_id : Option String

-- What is written as JSON. `message` and `error_text` are `errorResponse`s, with a fixed text and with
-- the text of an error; `health` is `healthResponse`.
pub data Body : Type 0 where
  message : String → Body
  error_text : Error → Body
  health : String → Option Error → Body
  wallet_body : WalletResponse → Body
  ledger_body : List LedgerEntryResponse → Body
  reconciliation_body : ReconciliationResponse → Body
  transaction_body : WagerTransactionResponse → Body
  submission_body : SubmitResponse → Body

pub record Response : Type 0 where
  pub status : ℕ
  pub body : Body

-- the routes of `NewServer`; the ledger's carries the query parameters `cursor` and `limit`
pub data Route : Type 0 where
  create_wallet : Route
  get_wallet : String → Route
  list_wallet_ledger : String → String → String → Route
  reconcile_wallet : String → Route
  submit_wager_transaction : Route
  get_wager_transaction : String → Route
  get_wager_transaction_by_provider : String → String → Route
  health_live health_ready : Route

-- the headers that the code reads are "" where they are missing
pub record Request : Type 0 where
  pub route : Route
  pub authorization : String
  pub idempotency_key : String
  pub correlation_id : String
  pub content : String

-- what the handlers take from outside: the token library, encoding/json, uuid.Parse, strconv.Atoi,
-- time.Format, and the outcome of the readiness check, if one is configured
pub record Web : Type 0 where
  pub tokens : IdTokens
  pub decode_create : String → Result CreateWalletRequest
  pub decode_submit : String → Result SubmitRequest
  pub parse_uuid : String → Result Uuid
  pub atoi : String → Result ℤ
  pub format_time : Time → String
  pub ready : Option (Result (Unit {0}))

abbrev pub Handler : Type 0
Handler = World → Response × World

-- `writeJSON` and return
abbrev pub write_json : ℕ → Body → Handler
write_json status body w = (record { status = status; body = body }, w)

abbrev pub continue_with : {A : Type 0} → (Error → Handler) → (A → Handler) → Result A → Handler
continue_with failed f (ok a) = f a
continue_with failed f (err e) = failed e

-- a call, with what `if err != nil` writes and what comes after it
unfoldable pub handling : {A : Type 0} → App A → (Error → Handler) → (A → Handler) → Handler
handling m failed f w = let (r, w') = m w in continue_with failed f r w'
