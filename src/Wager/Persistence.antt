-- ===== src/Wager/Persistence.antt =====
-- internal/wager/transaction.go: a transaction as the repositories restore it.
use croupier.Prelude.{String, Option}
use croupier.Values.{Uuid, Time}
use croupier.Money.{Money}
use croupier.Wager.{Transaction, Kind, TxStatus}

pub record TransactionFromPersistenceInput : Type 0 where
  pub id : Uuid
  pub status : TxStatus
  pub kind : Kind
  pub provider_id : String
  pub external_transaction_id : String
  pub round_id : String
  pub game_id : String
  pub player_id : Uuid
  pub wallet_id : Uuid
  pub amount : Money
  pub reference_external_transaction_id : Option String
  pub reference_transaction_id : Option Uuid
  pub failure_code : String
  pub created_at : Time
  pub updated_at : Time

abbrev pub transaction_from_persistence : TransactionFromPersistenceInput → Transaction
transaction_from_persistence input = record {
  id = input.id;
  status = input.status;
  external_transaction_id = input.external_transaction_id;
  provider_id = input.provider_id;
  player_id = input.player_id;
  wallet_id = input.wallet_id;
  round_id = input.round_id;
  game_id = input.game_id;
  kind = input.kind;
  amount = input.amount;
  reference_external_transaction_id = input.reference_external_transaction_id;
  reference_transaction_id = input.reference_transaction_id;
  failure_code = input.failure_code;
  created_at = input.created_at;
  updated_at = input.updated_at;
}
