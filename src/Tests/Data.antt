-- ===== src/Tests/Data.antt =====
-- A wallet with a balance of 1.00 from its OPENING transaction, a bet on it, and what surrounds them.
use croupier.Prelude.{ℕ, str_eq, none, some, [], ◌∷◌, ◌+◌, ◌*◌}
use croupier.Prelude.Int.{pos, pos_part}
use croupier.Errors.{ok}
use croupier.Money.{Money}
use croupier.Wallet.{Wallet}
use croupier.Wallet.Ledger.{credit}
use croupier.Wager.{
  pending_reference, Transaction, NewTransactionInput, bet, refund, pending, processed,
}
use croupier.Outbox.{Entry, pending as entry_pending}
use croupier.Store.Tables.{Db, WalletRow, LedgerRow, WagerRow}
use croupier.Store.Monad.{World, idle}
use croupier.App.Env.{Env}
use croupier.App.Movement.{SubmitInput}
use croupier.App.Resolver.{Resolver}

abbrev pub env : Env
env = record {
  parse_iso = λ c. str_eq c "BRL";
  digest = λ h. pos_part h.amount.amount + 1000 * h.wallet_id;
  marshal = λ d. ok (123 ∷ 125 ∷ []);
  jsonb_text = λ t. 32 ∷ t;
  uuid_text = λ id. "uuid";
  new_uuid = λ n. 100 + n;
  clock = λ n. 50 + n;
}

abbrev pub reais : ℕ → Money
reais n = record { currency = "BRL"; amount = pos n }

abbrev pub the_wallet : Wallet
the_wallet = record {
  id = 7;
  player_id = 3;
  version = pos 1;
  balance = reais 100;
  created_at = 1;
  updated_at = 1;
}

abbrev pub wallet_entry : WalletRow
wallet_entry = record {
  id = 7;
  player_id = 3;
  currency = "BRL";
  balance = pos 100;
  version = pos 1;
  created_at = 1;
  updated_at = 1;
}

abbrev pub opening_entry : LedgerRow
opening_entry = record {
  id = 9;
  wallet_id = 7;
  transaction_id = 8;
  direction = credit;
  amount = pos 100;
  balance_before = pos 0;
  balance_after = pos 100;
  created_at = 1;
}

abbrev pub the_bet : Transaction
the_bet = record {
  id = 20;
  status = processed;
  external_transaction_id = "bet-1";
  provider_id = "acme";
  player_id = 3;
  wallet_id = 7;
  round_id = "r1";
  game_id = "g1";
  kind = bet;
  amount = reais 30;
  reference_external_transaction_id = none;
  reference_transaction_id = none;
  failure_code = "";
  created_at = 2;
  updated_at = 2;
}

abbrev pub the_refund : Transaction
the_refund = record {
  id = 21;
  status = pending;
  external_transaction_id = "refund-1";
  provider_id = "acme";
  player_id = 3;
  wallet_id = 7;
  round_id = "r1";
  game_id = "g1";
  kind = refund;
  amount = reais 30;
  reference_external_transaction_id = some "bet-1";
  reference_transaction_id = none;
  failure_code = "";
  created_at = 3;
  updated_at = 3;
}

abbrev pub bet_row : WagerRow
bet_row = record {
  id = 20;
  status = processed;
  kind = bet;
  provider_id = some "acme";
  external_transaction_id = some "bet-1";
  round_id = some "r1";
  game_id = some "g1";
  player_id = 3;
  wallet_id = 7;
  currency = "BRL";
  amount = pos 30;
  reference_external_transaction_id = none;
  reference_transaction_id = none;
  failure_code = none;
  payload_hash = 7030;
  created_at = 2;
  updated_at = 2;
  pending_reference_attempts = 0;
  pending_reference_next_retry_at = none;
}

abbrev pub bet_input : NewTransactionInput
bet_input = record {
  provider_id = "acme";
  external_transaction_id = "bet-1";
  player_id = 3;
  wallet_id = 7;
  round_id = "r1";
  game_id = "g1";
  kind = bet;
  amount = reais 30;
  reference_external_transaction_id = none;
}

abbrev pub submission : SubmitInput
submission = record { transaction = bet_input; correlation_id = "c1" }

abbrev pub waiting : Entry
waiting = record {
  id = 30;
  aggregate_type = "Wallet";
  aggregate_id = 7;
  event_type = "WalletBalanceChanged";
  version = pos 1;
  payload = 123 ∷ 125 ∷ [];
  occurred_at = 1;
  correlation_id = "c0";
  causation_id = none;
  status = entry_pending;
  retry_count = pos 0;
  next_send_at = 1;
  created_at = 1;
}

abbrev pub opened_db : Db
opened_db = record {
  wallets = wallet_entry ∷ [];
  ledger = opening_entry ∷ [];
  wagers = [];
  outbox = waiting ∷ [];
  inbox = [];
}

abbrev pub played_db : Db
played_db = record opened_db { wagers = bet_row ∷ [] }

abbrev pub at : Db → World
at db = record { db = db; session = idle; faults = []; uuids = 0; readings = 0 }

abbrev pub resolver : Resolver
resolver = record { max_attempts = pos 5; ttl = pos 1000; backoff_base = pos 10 }

abbrev pub settled_refund : Transaction
settled_refund = record the_refund { status = processed; reference_transaction_id = some 20 }

abbrev pub refund_row : WagerRow
refund_row = record {
  id = 21;
  status = processed;
  kind = refund;
  provider_id = some "acme";
  external_transaction_id = some "refund-1";
  round_id = some "r1";
  game_id = some "g1";
  player_id = 3;
  wallet_id = 7;
  currency = "BRL";
  amount = pos 30;
  reference_external_transaction_id = some "bet-1";
  reference_transaction_id = some 20;
  failure_code = none;
  payload_hash = 7030;
  created_at = 3;
  updated_at = 3;
  pending_reference_attempts = 0;
  pending_reference_next_retry_at = none;
}

abbrev pub second_refund : Transaction
second_refund = record the_refund { id = 22; external_transaction_id = "refund-2" }

abbrev pub refunded_db : Db
refunded_db = record opened_db { wagers = bet_row ∷ refund_row ∷ [] }

-- the refund as another resolver loaded it, before it was processed
abbrev pub stale_refund : Transaction
stale_refund = record the_refund { status = pending_reference }
