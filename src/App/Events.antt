-- ===== src/App/Events.antt =====
-- internal/app/events.go: the constructors of the domain events.
pub mod Frame
use croupier.Prelude.{String, Option, none, some}
use croupier.Prelude.Int.{ℤ, pos}
use croupier.Errors.{Result}
use croupier.Values.{Uuid}
use croupier.Wallet.{Wallet}
use croupier.Wallet.Ledger.{LedgerEntry}
use croupier.Wager.{Transaction}
use croupier.Outbox.{Entry, new_entry}
use croupier.Store.Monad.{App, lift, draw_uuid, read_clock, ◌>>=◌}
use croupier.App.Env.{
  Env, EventData, processed_data, rejected_data, pending_reference_data, balance_changed_data,
}

abbrev event_envelope_version : ℤ
event_envelope_version = pos 1

-- the part that the four constructors have in common
unfoldable pub new_event :
    Env → String → Uuid → String → EventData → String → Option String → App Entry
new_event env aggregate_type aggregate_id event_type event_data correlation_id causation_id = do
  payload ← lift (env.marshal event_data)
  occurred_at ← read_clock env.clock
  now ← read_clock env.clock
  id ← draw_uuid env.new_uuid
  lift (
      new_entry id now (record {
        aggregate_type = aggregate_type;
        aggregate_id = aggregate_id;
        event_type = event_type;
        version = event_envelope_version;
        payload = payload;
        occurred_at = occurred_at;
        correlation_id = correlation_id;
        causation_id = causation_id;
      }))

-- `newWagerTransactionProcessedEvent`
unfoldable pub new_processed_event : Env → Transaction → String → App Entry
unfolding new_event
new_processed_event env tx correlation_id =
    new_event env "WagerTransaction" tx.id "WagerTransactionProcessed"
      (processed_data tx.id tx.kind tx.amount) correlation_id none

-- `newWagerTransactionRejectedEvent`
unfoldable pub new_rejected_event : Env → Transaction → String → App Entry
unfolding new_event
new_rejected_event env tx correlation_id =
    new_event env "WagerTransaction" tx.id "WagerTransactionRejected"
      (rejected_data tx.id tx.kind tx.failure_code) correlation_id none

abbrev pub text_or_empty : Option String → String
text_or_empty none = ""
text_or_empty (some s) = s

-- `newWagerTransactionPendingReferenceEvent`
unfoldable pub new_pending_reference_event : Env → Transaction → String → App Entry
unfolding new_event
new_pending_reference_event env tx correlation_id =
    new_event env "WagerTransaction" tx.id "WagerTransactionPendingReference"
      (pending_reference_data tx.id (text_or_empty tx.reference_external_transaction_id))
      correlation_id none

-- `newWalletBalanceChangedEvent`
unfoldable pub new_balance_changed_event :
    Env → Wallet → LedgerEntry → String → Option String → App Entry
unfolding new_event
new_balance_changed_event env w entry correlation_id causation_id =
    new_event env "Wallet" w.id "WalletBalanceChanged"
      (balance_changed_data w.id entry.transaction_id entry.direction entry.amount
        entry.balance_before entry.balance_after w.version)
      correlation_id causation_id
