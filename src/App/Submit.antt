-- ===== src/App/Submit.antt =====
-- internal/app/wager_submit.go: the submission of a wager transaction, as it composes the endings of
-- App/Movement, with the replay of a recorded transaction.
pub mod Books
pub mod Replay
pub mod Plays
pub mod Offers
pub mod Lands
pub mod Live
pub mod Declined
pub mod Repeats
pub mod References
pub mod Reverses
pub mod Parks
use croupier.Prelude.{
  String, Bool, true, false, not, str_eq, Option, none, some, List, [], ◌∷◌, if◌then◌else◌, ◌==◌,
}
use croupier.Errors.{
  Error, Result, ok, err, currency_mismatch, insufficient_balance, wager_transaction_not_found,
  wager_transaction_already_exists, ledger_entry_not_found, idempotency_conflict, no_movement,
}
use croupier.Values.{Uuid}
use croupier.Money.{Money}
use croupier.Wallet.{Wallet, debit, credit}
use croupier.Wallet.Ledger.{
  Direction, LedgerEntry, new_ledger_entry, debit as debit_direction, credit as credit_direction,
  other as other_direction,
}
use croupier.Wager.{
  Transaction, Kind, bet, win, loss, refund, rollback, is_loss, is_bet, is_reversal,
  is_pending_reference, NewTransactionInput, new_transaction, validate_reference, resolve_reference,
  mark_processed, mark_rejected, mark_pending_reference, payload_hash,
}
use croupier.Outbox.{Entry}
use croupier.Store.Monad.{
  App, pure, raise, lift, attempt, draw_uuid, read_clock, within_tx, ◌>>=◌, ◌>>◌,
}
use croupier.Store.Wallets.{find_wallet, save_wallet}
use croupier.Store.Entries.{find_ledger_entry, save_ledger_entry}
use croupier.Store.Wagers.{find_by_key, find_reversal, save_wager}
use croupier.Store.Outbox.{save_all}
use croupier.App.Env.{Env}
use croupier.App.Events.{
  new_processed_event, new_rejected_event, new_pending_reference_event, new_balance_changed_event,
}
use croupier.App.Movement.{
  wager_or_nil, entry_or_nil, SubmitInput, SubmitResult, failure_invalid_reference, movement,
  movement_direction, reject, park_pending_reference, finish_without_movement,
}

module _ (env : Env) where
  -- `process` from the test for LOSS on
  after_reference : Transaction → String → Option Transaction → App SubmitResult
  unfolding movement
  after_reference tx correlation_id referenced =
      if is_loss tx.kind then finish_without_movement env tx correlation_id else (do
        direction ← lift (movement_direction tx.kind referenced)
        within_tx (movement env tx correlation_id direction referenced))

  unfoldable pub against_reference :
      Transaction → String → Transaction → Result (Unit {0}) → App SubmitResult
  unfolding after_reference
  against_reference tx correlation_id ref (err e) =
      reject env tx failure_invalid_reference correlation_id
  against_reference tx correlation_id ref (ok _) = do
    now ← read_clock env.clock
    resolved ← lift (resolve_reference now tx ref.id)
    after_reference resolved correlation_id (some ref)

  with_reference : Transaction → String → Option Transaction → App SubmitResult
  unfolding against_reference
  with_reference tx correlation_id none = park_pending_reference env tx correlation_id
  with_reference tx correlation_id (some ref) =
      against_reference tx correlation_id ref (validate_reference tx ref)

  -- `refExtID := *tx.ReferenceExternalTransactionID()`
  unfoldable pub process_reversal : Transaction → String → Option String → App SubmitResult
  unfolding with_reference
  process_reversal tx correlation_id none = raise Error.nil_pointer
  process_reversal tx correlation_id (some reference) = do
    found ← attempt (find_by_key env.parse_iso tx.provider_id reference)
    referenced ← wager_or_nil found
    with_reference tx correlation_id referenced

  unfoldable pub process : Transaction → String → App SubmitResult
  unfolding process_reversal
  process tx correlation_id =
      if is_reversal tx.kind
      then process_reversal tx correlation_id tx.reference_external_transaction_id
      else after_reference tx correlation_id none

  balance_or_current : Transaction → Option LedgerEntry → App Money
  balance_or_current tx (some entry) = pure entry.balance_after
  balance_or_current tx none = do w ← find_wallet env.parse_iso tx.wallet_id; pure w.balance

  -- `balanceAtProcessing`
  balance_at_processing : Transaction → App Money
  unfolding balance_or_current
  balance_at_processing tx = do
    found ← attempt (find_ledger_entry env.parse_iso tx.id)
    entry ← entry_or_nil found
    balance_or_current tx entry

  replay_same : Transaction → App SubmitResult
  unfolding balance_at_processing
  replay_same existing = do
    balance ← balance_at_processing existing
    pure (record { transaction = existing; balance = balance; idempotent_replay = true })

  unfoldable pub replay : Transaction → Transaction → App SubmitResult
  unfolding replay_same
  replay existing candidate =
      if not (payload_hash env.digest existing == payload_hash env.digest candidate)
      then raise (Error.app idempotency_conflict)
      else replay_same existing

  -- what `Submit` makes of the outcome of `process`
  conclude : Transaction → Result SubmitResult → App SubmitResult
  conclude candidate (ok result) = pure result
  conclude candidate (err (Error.app wager_transaction_already_exists)) = do
    winner ← find_by_key env.parse_iso candidate.provider_id candidate.external_transaction_id
    replay winner candidate
  conclude candidate (err e) = raise e

  submit_candidate : Transaction → String → Option Transaction → App SubmitResult
  unfolding conclude
  submit_candidate candidate correlation_id (some existing) = replay existing candidate
  submit_candidate candidate correlation_id none = do
    outcome ← attempt (process candidate correlation_id)
    conclude candidate outcome

  unfoldable pub submit : SubmitInput → App SubmitResult
  unfolding submit_candidate
  submit input = do
    now ← read_clock env.clock
    id ← draw_uuid env.new_uuid
    candidate ← lift (new_transaction id now input.transaction)
    found ← attempt (
        find_by_key env.parse_iso input.transaction.provider_id
          input.transaction.external_transaction_id)
    existing ← wager_or_nil found
    submit_candidate candidate input.correlation_id existing
