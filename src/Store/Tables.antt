-- ===== src/Store/Tables.antt =====
-- The tables of internal/postgres/migrations, column by column. A nullable text is an `Option`; the
-- payload hash of a transaction is written and never read.
use croupier.Prelude.{ℕ, String, Option, List, []}
use croupier.Prelude.Int.{ℤ}
use croupier.Values.{Uuid, Time, Digest}
use croupier.Wallet.Ledger.{Direction}
use croupier.Wager.{Kind, TxStatus}
use croupier.Outbox.{Entry}
use croupier.Outbox.Inbox.{Inbox}

pub record WalletRow : Type 0 where
  pub id : Uuid
  pub player_id : Uuid
  pub currency : String
  pub balance : ℤ
  pub version : ℤ
  pub created_at : Time
  pub updated_at : Time

-- The currency of an entry is that of its wallet.
pub record LedgerRow : Type 0 where
  pub id : Uuid
  pub wallet_id : Uuid
  pub transaction_id : Uuid
  pub direction : Direction
  pub amount : ℤ
  pub balance_before : ℤ
  pub balance_after : ℤ
  pub created_at : Time

pub record WagerRow : Type 0 where
  pub id : Uuid
  pub status : TxStatus
  pub kind : Kind
  pub provider_id : Option String
  pub external_transaction_id : Option String
  pub round_id : Option String
  pub game_id : Option String
  pub player_id : Uuid
  pub wallet_id : Uuid
  pub currency : String
  pub amount : ℤ
  pub reference_external_transaction_id : Option String
  pub reference_transaction_id : Option Uuid
  pub failure_code : Option String
  pub payload_hash : Digest
  pub created_at : Time
  pub updated_at : Time
  pub pending_reference_attempts : ℕ
  pub pending_reference_next_retry_at : Option Time

pub record Db : Type 0 where
  pub wallets : List WalletRow
  pub ledger : List LedgerRow
  pub wagers : List WagerRow
  pub outbox : List Entry
  pub inbox : List Inbox

abbrev pub empty : Db
empty = record { wallets = []; ledger = []; wagers = []; outbox = []; inbox = [] }
